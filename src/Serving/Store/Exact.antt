-- ===== src/Serving/Store/Exact.antt =====
-- The store after any calls of the informer's handlers.
use mathlib.Core.Path.{subst}
use mathlib.Core.Option.{some-injective}
use semantic_operator.Prelude.{
  Text, List, [], ◌∷◌, map, Option, none, some, if◌then◌else◌, text_eq, text_eq_iff, lookup, ◌≡◌,
  ◌↔◌, inl, inr, refl, sym, ap, ◌∙◌, Elem,
}
use semantic_operator.Prelude.Lists.{Elem-keep}
use semantic_operator.Planner.{CompiledModel}
use semantic_operator.Serving.Store.{
  Store, new_store, config_map, tombstone, other_object, Event, ingested, deleted, put, put_decoded,
  delete, handle, handle_all, get, published_as, entries_of, only, has_name,
}
use semantic_operator.Serving.Store.Entries.{
  IsMap, lookup-put_entry, put_entry-IsMap, lookup-delete_entry, delete_entry-IsMap, lookup_iff,
  keep-single,
}

module _ (decode : Text → Option CompiledModel) where
  -- The abstract store: what each ConfigMap publishes.
  abbrev apply_decoded :
      Text → Option CompiledModel → (Text → Option CompiledModel) → Text → Option CompiledModel
  apply_decoded key none f k = f k
  apply_decoded key (some p) f k = if text_eq key k then some p else f k

  abbrev apply_event : Event → (Text → Option CompiledModel) → Text → Option CompiledModel
  apply_event (ingested (config_map key (some blob))) f k = apply_decoded key (decode blob) f k
  apply_event (ingested _) f k = f k
  apply_event (deleted (config_map key _)) f k = if text_eq key k then none else f k
  apply_event (deleted _) f k = f k

  abbrev pub history : List Event → (Text → Option CompiledModel) → Text → Option CompiledModel
  history [] f = f
  history (e ∷ es) f = history es (apply_event e f)

  -- The entries hold what the abstract store does.
  record Refines (s : Store) (f : Text → Option CompiledModel) : Type 0 where
    is_map : IsMap s.cms
    agrees : (k : Text) → lookup s.cms k ≡ f k

  put_decoded-Refines :
      (key : Text) (o : Option CompiledModel) (s : Store) (f : Text → Option CompiledModel)
      → Refines s f
      → Refines (put_decoded key o s) (apply_decoded key o f)
  unfolding put_decoded
  put_decoded-Refines key none s f r = record { is_map = r.is_map; agrees = r.agrees }
  put_decoded-Refines key (some p) s f r = record {
    is_map = put_entry-IsMap s.cms key p r.is_map;
    agrees = λ k.
        lookup-put_entry s.cms key p k ∙ ap (λ o. if text_eq key k then some p else o) (r.agrees k);
  }

  as_it_was : (s : Store) (f : Text → Option CompiledModel) → Refines s f → Refines s (λ k. f k)
  as_it_was s f r = record { is_map = r.is_map; agrees = r.agrees }

  handle-Refines :
      (e : Event) (s : Store) (f : Text → Option CompiledModel)
      → Refines s f
      → Refines (handle decode e s) (apply_event e f)
  unfolding handle put delete
  handle-Refines (ingested (config_map key (some blob))) s f r =
      put_decoded-Refines key (decode blob) s f r
  handle-Refines (ingested (config_map key none)) s f r = as_it_was s f r
  handle-Refines (ingested (tombstone key)) s f r = as_it_was s f r
  handle-Refines (ingested other_object) s f r = as_it_was s f r
  handle-Refines (deleted (tombstone key)) s f r = as_it_was s f r
  handle-Refines (deleted other_object) s f r = as_it_was s f r
  handle-Refines (deleted (config_map key data_of)) s f r = record {
    is_map = delete_entry-IsMap s.cms key r.is_map;
    agrees = λ k.
        lookup-delete_entry s.cms key k r.is_map
        ∙ ap (λ o. if text_eq key k then none else o) (r.agrees k);
  }

  handle_all-Refines :
      (es : List Event) (s : Store) (f : Text → Option CompiledModel)
      → Refines s f
      → Refines (handle_all decode es s) (history es f)
  unfolding handle_all
  handle_all-Refines [] s f r = r
  handle_all-Refines (e ∷ es) s f r =
      handle_all-Refines es (handle decode e s) (apply_event e f) (handle-Refines e s f r)

  nothing : Text → Option CompiledModel
  nothing k = none

  started : (es : List Event) → Refines (handle_all decode es new_store) (history es nothing)
  unfolding nothing lookup
  started es = handle_all-Refines es new_store nothing (record { is_map = tt; agrees = λ k. refl })

  -- After any calls of the informer's handlers, the store holds under each ConfigMap's name what the
  -- latest call that counts says: an added or updated ConfigMap whose blob decodes puts its model, and
  -- a ConfigMap handed over as deleted leaves nothing. A call with any other object changes nothing,
  -- so a deletion that comes as a tombstone leaves the model in the store.
  pub handle_all_refines :
      (es : List Event) (k : Text)
      → lookup (handle_all decode es new_store).cms k ≡ history es (λ _. none) k
  unfolding nothing
  handle_all_refines es k = (started es).agrees k

  -- One ConfigMap, and no other, publishes a model under the name.
  abbrev pub IsOnly : (Text → Option CompiledModel) → Text → CompiledModel → Type 0
  IsOnly f name p =
      (k : Text) × (f k ≡ some p)
      × (p.name ≡ name)
      × ((j : Text) (q : CompiledModel) → f j ≡ some q → q.name ≡ name → j ≡ k)

  only-map :
      (es : List (Text × CompiledModel)) (p : CompiledModel)
      → only (map (λ (e : Text × CompiledModel). e.1) es) ≡ some p
      → (k : Text) × (es ≡ (k, p) ∷ [])
  only-map [] p h = cc
  only-map ((k, q) ∷ []) p h = (k, ap (λ (x : CompiledModel). (k, x) ∷ []) (some-injective q p h))
  only-map (d ∷ e ∷ es) p h = cc

  get_iff :
      (s : Store) (f : Text → Option CompiledModel)
      → Refines s f
      → (name : Text) (p : CompiledModel) → (get name s ≡ some p) ↔ IsOnly f name p
  unfolding get published_as entries_of
  get_iff s f r name p = (
    λ h.
        let (k, e) = only-map (entries_of name s) p h in
        let (l, t) =
          (Elem-keep (has_name name) s.cms (k, p)).0 (subst (Elem (k, p)) (sym e) (inl refl)) in
        (
          k,
          sym (r.agrees k) ∙ (lookup_iff s.cms k p r.is_map).1 l,
          (text_eq_iff p.name name).0 t,
          λ j q g n.
              let m = (lookup_iff s.cms j q r.is_map).0 (r.agrees j ∙ g) in
              let kept =
                (Elem-keep (has_name name) s.cms (j, q)).1 (m, (text_eq_iff q.name name).1 n) in
              only_key (j, q) (k, p) (subst (Elem (j, q)) e kept),
        ),
    λ (k, g, n, u).
        let l = (lookup_iff s.cms k p r.is_map).0 (r.agrees k ∙ g) in
        let single =
          keep-single (has_name name) s.cms (k, p) r.is_map l ((text_eq_iff p.name name).1 n)
            (λ d m t.
              u d.0 d.1 (sym (r.agrees d.0) ∙ (lookup_iff s.cms d.0 d.1 r.is_map).1 m)
                ((text_eq_iff d.1.name name).0 t)) in
        ap (λ es. only (map (λ (e : Text × CompiledModel). e.1) es)) single,
  )
    where
      only_key : (d e : Text × CompiledModel) → Elem d (e ∷ []) → d.0 ≡ e.0
      only_key d e (inl q) = ap (λ (x : Text × CompiledModel). x.0) q
      only_key d e (inr q) = absurd q

  -- After any calls of the informer's handlers, `Get` returns a model for a name exactly if one
  -- ConfigMap, and no other, publishes a model under the name by the calls that count, and the model
  -- is that one. A tombstone does not count: what it is about stays published.
  pub get_exact :
      (es : List Event) (name : Text) (p : CompiledModel)
      → (get name (handle_all decode es new_store) ≡ some p)
        ↔ IsOnly (history es (λ _. none)) name p
  unfolding nothing
  get_exact es name p =
      get_iff (handle_all decode es new_store) (history es nothing) (started es) name p
