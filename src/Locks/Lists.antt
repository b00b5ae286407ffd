-- ===== src/Locks/Lists.antt =====
-- Lists of threads.
use opcuatesttool.Prelude.{◌≡◌, refl, ◌⊎◌, inl, inr, List, [], ◌∷◌, ◌++◌, All, ap}
use opcuatesttool.Locks.Defs.{Thread}

-- A thread of the list with a property, and those beside it.
pub record Found (P : Thread → Type 0) (ts : List Thread) : Type 0 where
  pub before : List Thread
  pub after : List Thread
  pub thread : Thread
  pub parts : ts ≡ before ++ thread ∷ after
  pub holds_it : P thread

pub find :
    {P Q : Thread → Type 0} (ts : List Thread) → ((t : Thread) → P t ⊎ Q t) → All Q ts ⊎ Found P ts
find [] decide = inl tt
find (t ∷ ts) decide = elim (decide t) [
  | inl p ↦ inr (record { before = []; after = ts; thread = t; parts = refl; holds_it = p })
  | inr q ↦ elim (find ts decide) [
    | inl all ↦ inl (q, all)
    | inr f ↦ inr (record {
      before = t ∷ f.before;
      after = f.after;
      thread = f.thread;
      parts = ap (◌∷◌ t) f.parts;
      holds_it = f.holds_it;
    })
  ]
]

pub All-at :
    (P : Thread → Type 0) (before after : List Thread) (t : Thread)
    → All P (before ++ t ∷ after)
    → P t
All-at P [] after t v = v.0
All-at P (x ∷ before) after t v = All-at P before after t v.1

pub All-beside :
    (P : Thread → Type 0) (before after : List Thread) (t : Thread)
    → All P (before ++ t ∷ after)
    → All P (before ++ after)
All-beside P [] after t v = v.1
All-beside P (x ∷ before) after t v = (v.0, All-beside P before after t v.1)
