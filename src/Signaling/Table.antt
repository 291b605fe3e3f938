-- ===== src/Signaling/Table.antt =====
-- The object `msgs`: promises under the tids that wait for a reply.
use go_live_streaming.Base.{
  ℕ, ◌≡◌, refl, Option, none, some, List, [], ◌∷◌, arith, ◌==◌, ==_iff, Bool-cases, inl, inr,
  if◌then◌else◌,
}

abbrev pub Msgs : Type 0
Msgs = List (ℕ × ℕ)

-- `msgs[tid]`
unfoldable pub lookup : ℕ → Msgs → Option ℕ
lookup tid [] = none
lookup tid ((t, p) ∷ msgs) = if t == tid then some p else lookup tid msgs

-- `msgs[tid] = p`
unfoldable pub assign : ℕ → ℕ → Msgs → Msgs
assign tid p [] = (tid, p) ∷ []
assign tid p ((t, q) ∷ msgs) = if t == tid then (t, p) ∷ msgs else (t, q) ∷ assign tid p msgs

-- `delete msgs[tid]`
unfoldable pub delete : ℕ → Msgs → Msgs
delete tid [] = []
delete tid ((t, p) ∷ msgs) = if t == tid then delete tid msgs else (t, p) ∷ delete tid msgs

pub lookup-assign :
    (t tid p : ℕ) (msgs : Msgs)
    → lookup t (assign tid p msgs) ≡ (if tid == t then some p else lookup t msgs)
unfolding lookup assign
lookup-assign t tid p [] = refl
lookup-assign t tid p ((u, q) ∷ msgs) = ground (arith, lookup-assign t tid p msgs)

pub lookup-delete :
    (t tid : ℕ) (msgs : Msgs)
    → lookup t (delete tid msgs) ≡ (if tid == t then none else lookup t msgs)
unfolding lookup delete
lookup-delete t tid [] = ground arith
lookup-delete t tid ((u, q) ∷ msgs) = ground (arith, lookup-delete t tid msgs)

-- Every entry is as the predicate says.
abbrev pub Every : (ℕ → ℕ → Type 0) → Msgs → Type 0
Every P [] = Unit
Every P ((t, p) ∷ msgs) = P t p × Every P msgs

module _ (P : ℕ → ℕ → Type 0) where
  pub Every-assign :
      (tid p : ℕ) (msgs : Msgs) → P tid p → Every P msgs → Every P (assign tid p msgs)
  unfolding assign
  Every-assign tid p [] h k = (h, tt)
  Every-assign tid p ((t, q) ∷ msgs) h k = elim (Bool-cases (t == tid)) [
    | inl hit ↦ let same : t ≡ tid = (==_iff t tid).0 hit in rw hit (rw same h, k.1)
    | inr miss ↦ rw miss (k.0, Every-assign tid p msgs h k.1)
  ]

  pub Every-delete : (tid : ℕ) (msgs : Msgs) → Every P msgs → Every P (delete tid msgs)
  unfolding delete
  Every-delete tid [] k = tt
  Every-delete tid ((t, q) ∷ msgs) k = ground (arith, Every-delete tid msgs k.1)

  pub Every-lookup : (tid p : ℕ) (msgs : Msgs) → lookup tid msgs ≡ some p → Every P msgs → P tid p
  unfolding lookup
  Every-lookup tid p [] e k = cc
  Every-lookup tid p ((t, q) ∷ msgs) e k = elim (Bool-cases (t == tid)) [
    | inl hit ↦
        let same : t ≡ tid = (==_iff t tid).0 hit in
        let found : q ≡ p = ground arith in rw (← same, ← found) k.0
    | inr miss ↦ Every-lookup tid p msgs (ground arith) k.1
  ]
