-- ===== src/Ossie/Cycles.antt =====
-- internal/ossie/validate.go: `findCycle`, a depth-first search with three colours. The recursion is
-- on fuel, and the map of the edges is the list of its entries.
pub mod Walks
pub mod Marked
pub mod Acyclic
mod Tests
use semantic_operator.Prelude.{
  Text, ℕ, zero, suc, List, [], ◌∷◌, ◌++◌, map, Option, none, some, if◌then◌else◌, text_eq, length,
  Map, lookup, insert, Result, ok, err, ◌>>=◌,
}

pub data Color : Type 0 where
  white gray black : Color

-- `edges[n]`, in the order of the relationships.
unfoldable pub targets : List (Text × Text) → Text → List Text
targets [] n = []
targets ((a, b) ∷ edges) n = let rest = targets edges n in if text_eq a n then b ∷ rest else rest

-- The variables `color` and `path`.
pub record Marks : Type 0 where
  pub color : Map Color
  pub path : List Text

-- `color[n]`, which is 0 where nothing is stored.
unfoldable pub color_of : Map Color → Text → Color
color_of colors n = elim (lookup colors n) [ none ↦ white | some c ↦ c ]

-- The search ends with a cycle, or without fuel.
pub data Stop : Type 0 where
  cycle : List Text → Stop
  out_of_fuel : Stop

-- `path[:len(path)-1]`
unfoldable pub drop_last : {A : Type 0} → List A → List A
drop_last [] = []
drop_last (x ∷ []) = []
drop_last (x ∷ y ∷ xs) = x ∷ drop_last (y ∷ xs)

unfoldable pub enter : Text → Marks → Marks
enter n s = record { color = insert n gray s.color; path = s.path ++ n ∷ [] }

unfoldable pub leave : Text → Marks → Marks
unfolding drop_last
leave n s = record { color = insert n black s.color; path = drop_last s.path }

-- The loop over the targets of a node, with `dfs` as an argument.
unfoldable pub explore : (Text → Marks → Result Stop Marks) → List Text → Marks → Result Stop Marks
unfolding color_of
explore dfs [] s = ok s
explore dfs (m ∷ ms) s = elim (color_of s.color m) [
  | gray ↦ err (cycle (s.path ++ m ∷ []))
  | white ↦ do t ← dfs m s; explore dfs ms t
  | black ↦ explore dfs ms s
]

unfoldable pub depth_first : List (Text × Text) → ℕ → Text → Marks → Result Stop Marks
unfolding targets explore enter leave
depth_first edges zero n s = err out_of_fuel
depth_first edges (suc fuel) n s = do
  t ← explore (depth_first edges fuel) (targets edges n) (enter n s)
  ok (leave n t)

-- The loop over the keys of the map, in the order that they come in.
unfoldable pub search_all : List (Text × Text) → ℕ → List Text → Marks → Result Stop Marks
unfolding color_of depth_first
search_all edges fuel [] s = ok s
search_all edges fuel (n ∷ ns) s = elim (color_of s.color n) [
  | white ↦ do t ← depth_first edges fuel n s; search_all edges fuel ns t
  | gray ↦ search_all edges fuel ns s
  | black ↦ search_all edges fuel ns s
]

-- The nodes of the graph: enough fuel, since a node is entered once.
abbrev pub nodes : List (Text × Text) → List Text
nodes [] = []
nodes ((a, b) ∷ edges) = a ∷ b ∷ nodes edges

unfoldable pub find_cycle : List (Text × Text) → List Text → Result Stop Marks
unfolding search_all
find_cycle edges order =
    search_all edges (suc (length (nodes edges))) order (record { color = []; path = [] })
