-- ===== src/Console/Streams/Owners.antt =====
-- The owners that CSCStreams gives to the streams.
use go_live_streaming.Base.{
  ℕ, zero, suc, ◌≡◌, refl, ap, ◌⊎◌, inl, inr, Option, none, some, List, [], ◌∷◌, ◌++◌, arith,
  length, get_elem?,
}
use go_live_streaming.Base.Text.{Text, text_eq_iff}
use go_live_streaming.Utility.Arrays.{test}
use go_live_streaming.Utility.Arrays.Find.{NoMatch, system_array_get_cases}
use go_live_streaming.Console.Streams.{Vhost, Stream, is_owner, same_vhost, with_owner, set_owners}

-- No vhost of the list has the id.
abbrev pub NoneHas : Text → List Vhost → Type 0
NoneHas id [] = Unit
NoneHas id (v ∷ vhosts) = ¬ (v.id ≡ id) × NoneHas id vhosts

-- The owner is the first vhost with the id, or null if there is none.
abbrev pub IsOwner : Text → List Vhost → Option Vhost → Type 0
IsOwner id vhosts owner =
    ((owner ≡ none) × NoneHas id vhosts)
    ⊎ ((before after : List Vhost) × (v : Vhost) × (owner ≡ some v)
        × (vhosts ≡ before ++ v ∷ after)
        × NoneHas id before
        × (v.id ≡ id))

NoMatch-NoneHas :
    (s : Stream) (vhosts : List Vhost)
    → NoMatch same_vhost (test (is_owner s)) vhosts
    → NoneHas s.vhost vhosts
NoMatch-NoneHas s [] h = tt
NoMatch-NoneHas s (v ∷ vhosts) h =
    (λ e. ground (arith, h.0, (text_eq_iff v.id s.vhost).1 e), NoMatch-NoneHas s vhosts h.1)

with_owner-IsOwner :
    (vhosts : List Vhost) (s : Stream) → IsOwner s.vhost vhosts (with_owner vhosts s).owner
unfolding with_owner
with_owner-IsOwner vhosts s = elim (system_array_get_cases same_vhost vhosts (test (is_owner s))) [
  | inl (nothing, all, _) ↦ inl (nothing, NoMatch-NoneHas s vhosts all)
  | inr (before, after, v, found, split, first, hit, _) ↦ inr (
    before,
    after,
    v,
    found,
    split,
    NoMatch-NoneHas s before first,
    (text_eq_iff v.id s.vhost).0 hit,
  )
]

-- What is shown of a stream is what the server sent, with an owner.
pub record Owned (vhosts : List Vhost) (sent shown : Stream) : Type 0 where
  pub same : shown ≡ record sent { owner = shown.owner }
  pub owner : IsOwner sent.vhost vhosts shown.owner

-- The page shows as many streams as the server sent, in the same order, and of each nothing is changed
-- but its owner: this is the first of the vhosts that came before with the id that the stream has for
-- its vhost, or null if there is none.
pub set_owners-Owned :
    (vhosts : List Vhost) (streams : List Stream) (i : ℕ) (sent : Stream)
    → get_elem? streams i ≡ some sent
    → (length (set_owners vhosts streams) ≡ length streams)
      × ((shown : Stream) × (get_elem? (set_owners vhosts streams) i ≡ some shown)
          × Owned vhosts sent shown)
unfolding set_owners
set_owners-Owned vhosts [] i sent e = absurd (ground arith)
set_owners-Owned vhosts (s ∷ streams) zero sent e = (
  ap suc (lengths streams),
  (
    with_owner vhosts sent,
    ap (λ o. o) (ground (arith, e)),
    record { same = refl; owner = with_owner-IsOwner vhosts sent },
  ),
)
  where
    lengths : (ss : List Stream) → length (set_owners vhosts ss) ≡ length ss
    lengths [] = refl
    lengths (t ∷ ss) = ap suc (lengths ss)
set_owners-Owned vhosts (s ∷ streams) (suc i) sent e =
    let (long, shown) = set_owners-Owned vhosts streams i sent e in (ap suc long, shown)
