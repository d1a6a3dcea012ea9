-- ===== src/Serving/Authorization/Decided.antt =====
-- What an external decision rests on.
use mathlib.Core.Path.{subst}
use mathlib.Core.Option.{some-injective}
use semantic_operator.Prelude.{
  Text, Bool, true, false, Option, none, some, if◌then◌else◌, lookup, Result, ok, err, Option-cases,
  ok_injective, ◌≡◌, ◌↔◌, inl, inr, refl, sym, ap,
}
use semantic_operator.Errors.{Error, denied_by}
use semantic_operator.Serving.Authorization.{
  Input, Verdict, Provider, ProviderFailure, was_canceled, failed, Registry, decided, ask,
  authorize_external,
}

-- The provider that is registered under the reference allows the input.
abbrev pub IsAllowed : Option Registry → Text → Input → Verdict → Type 0
IsAllowed registry ref input v =
    (r : Registry) × (provider : Provider) × (registry ≡ some r)
    × (lookup r ref ≡ some provider)
    × (provider input ≡ ok v)
    × (v.allow ≡ true)

-- A test that a result depends on.
if-ok :
    (b : Bool) (u v : Verdict) (failure : Error)
    → ((if b then ok u else err failure) ≡ ok v) ↔ ((b ≡ true) × (u ≡ v))
if-ok true u v failure = (λ e. (refl, ok_injective u v e), λ (_, e). ap (λ (x : Verdict). ok x) e)
if-ok false u v failure = (λ e. cc, λ (e, _). cc)

decided_ok :
    (ref : Text) (answer : Result ProviderFailure Verdict) (v : Verdict)
    → (decided ref answer ≡ ok v) ↔ ((answer ≡ ok v) × (v.allow ≡ true))
unfolding decided
decided_ok ref (err was_canceled) v = (λ e. cc, λ (e, _). cc)
decided_ok ref (err failed) v = (λ e. cc, λ (e, _). cc)
decided_ok ref (ok u) v = (
  λ e.
      let (a, same) = (if-ok u.allow u v (denied_by ref)).0 e in
      (ap (λ (x : Verdict). ok x) same, subst (λ (x : Verdict). x.allow ≡ true) same a),
  λ (e, a).
      let same = ok_injective u v e in
      (if-ok u.allow u v (denied_by ref)).1
        (subst (λ (x : Verdict). x.allow ≡ true) (sym same) a, same),
)

-- `Authorize` succeeds exactly if a registry is configured, it has a provider under the reference,
-- and that provider answers the input with a decision that allows it; the decision is that one.
pub authorize_external_exact :
    (registry : Option Registry) (ref : Text) (input : Input) (v : Verdict)
    → (authorize_external registry ref input ≡ ok v) ↔ IsAllowed registry ref input v
unfolding authorize_external ask
authorize_external_exact none ref input v = (λ e. cc, λ (r, p, e, _, _, _). cc)
authorize_external_exact (some r) ref input v = (
  λ e. elim (Option-cases (lookup r ref)) [
    | inl n ↦ cc (rw (n, ask) at e)
    | inr (p, l) ↦
        let (a, b) = (decided_ok ref (p input) v).0 (rw (l, ask) at e) in (r, p, refl, l, a, b)
  ],
  λ (s, p, same, l, a, b).
      let found : lookup r ref ≡ some p =
        subst (λ (x : Registry). lookup x ref ≡ some p) (sym (some-injective r s same)) l in
      rw (found, ask) ((decided_ok ref (p input) v).1 (a, b)),
)
