-- ===== src/Registry/Acyclic/Paths.antt =====
-- Paths and cycles of the sub-agent graph, and the agents that lie on no cycle.
use arema.Prelude.{ℕ, zero, suc, String, ◌≡◌, subst, some, List, [], ◌∷◌, ◌++◌, get_elem?, drop}
use arema.Registry.Descriptors.{Agents, children}

-- `y` is listed by `x`.
abbrev pub Edge : Agents → String → String → Type 0
Edge agents x y = (k : ℕ) × (get_elem? (children agents x) k ≡ some y)

-- Each agent of the list is listed by the one before it.
abbrev pub IsPath : Agents → List String → Type 0
IsPath agents [] = Unit
IsPath agents (x ∷ []) = Unit
IsPath agents (x ∷ y ∷ ys) = Edge agents x y × IsPath agents (y ∷ ys)

-- A path of at least one edge back to its first agent.
abbrev pub IsCycle : Agents → List String → Type 0
IsCycle agents l = (c : String) × (mid : List String) × (l ≡ c ∷ mid ++ c ∷ []) × IsPath agents l

-- Every path from the agent ends.
pub data IsSafe (agents : Agents) : String → Type 0 where
  safe :
      (a : String)
      → ((k : ℕ) (c : String) → get_elem? (children agents a) k ≡ some c → IsSafe agents c)
      → IsSafe agents a

module _ (agents : Agents) where
  pub IsPath-snoc :
      (xs : List String) (p a : String)
      → IsPath agents (xs ++ p ∷ [])
      → Edge agents p a
      → IsPath agents ((xs ++ p ∷ []) ++ a ∷ [])
  IsPath-snoc [] p a h e = (e, tt)
  IsPath-snoc (x ∷ []) p a h e = (h.0, (e, tt))
  IsPath-snoc (x ∷ y ∷ xs) p a h e = (h.0, IsPath-snoc (y ∷ xs) p a h.1 e)

  IsPath-tail : (x : String) (xs : List String) → IsPath agents (x ∷ xs) → IsPath agents xs
  IsPath-tail x [] h = tt
  IsPath-tail x (y ∷ ys) h = h.1

  pub IsPath-drop : (n : ℕ) (xs : List String) → IsPath agents xs → IsPath agents (drop n xs)
  IsPath-drop zero xs h = h
  IsPath-drop (suc n) [] h = tt
  IsPath-drop (suc n) (x ∷ xs) h = IsPath-drop n xs (IsPath-tail x xs h)

  -- A safe agent lies on no cycle: the cycle can be turned so that it starts one agent later.
  safe_no_cycle :
      {a : String} (l : List String) → IsSafe agents a → IsPath agents (a ∷ l ++ a ∷ []) → ⊥
  safe_no_cycle [] (safe a h) p = safe_no_cycle [] (h p.0.0 a p.0.1) p
  safe_no_cycle (b ∷ l) (safe a h) p =
      safe_no_cycle (l ++ a ∷ []) (h p.0.0 b p.0.1) (IsPath-snoc (b ∷ l) a b p.1 p.0)

  pub safe_not-IsCycle : (l : List String) → ((a : String) → IsSafe agents a) → IsCycle agents l → ⊥
  safe_not-IsCycle l all (c, mid, e, p) = safe_no_cycle mid (all c) (subst (IsPath agents) e p)
