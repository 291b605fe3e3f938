-- ===== src/Console/Directive/Laws.antt =====
-- Editing, cancelling and committing a setting.
use go_live_streaming.Base.{◌≡◌, true, false, none, some, List, ◌∷◌, arith}
use go_live_streaming.Base.Text.{Text}
use go_live_streaming.Base.Split.{AllLack, split-join}
use go_live_streaming.Console.Directive.{
  Value, undefined, boolean, str, array, Config, Outcome, comma, fresh, edit, type_text, commit,
  cancel,
}

-- The value is of the kind that the directive is for: an array, if it is for arrays.
abbrev pub Fits : Config → Value → Type 0
Fits c (array xs) = Unit
Fits c _ = c.is_array ≡ false

abbrev pub run_cancel : Config → Text → Value → Outcome
run_cancel c t v = cancel c (type_text t (edit c (fresh (some v))).0)

-- If the value is of the kind that the directive is for, cancelling brings the value back that was
-- there when editing began, whatever is typed, and nothing throws.
pub cancel-edit :
    (c : Config) (v : Value) (t : Text)
    → Fits c v
    → ((edit c (fresh (some v))).1 ≡ false) × (run_cancel c t v ≡ (fresh (some v), false))
unfolding edit type_text cancel
cancel-edit c undefined t h = (ground arith, ground arith)
cancel-edit c (boolean b) t h = (ground arith, ground arith)
cancel-edit c (str s) t h = (ground arith, ground arith)
cancel-edit c (array xs) t h = (ground arith, ground arith)

-- In a directive for arrays, committing with nothing typed gives back an array whose elements have no
-- comma and which is not empty, if the server accepts it; the editing is over.
pub commit-edit :
    (c : Config) (x : Text) (xs : List Text)
    → c.is_array ≡ true
    → AllLack comma (x ∷ xs)
    → commit c true (edit c (fresh (some (array (x ∷ xs))))).0
      ≡ (fresh (some (array (x ∷ xs))), false)
unfolding commit edit
commit-edit c x xs on h = ground (arith, split-join comma x xs h.0 h.1)

-- If the value is of the kind that the directive is for, a commit that the server refuses leaves the
-- editor open, and cancelling then still brings the value back that was there when editing began.
pub commit_refused :
    (c : Config) (v : Value) (t : Text)
    → Fits c v
    → let s = (commit c false (type_text t (edit c (fresh (some v))).0)).0 in
      (s.editing ≡ true) × (cancel c s ≡ (fresh (some v), false))
unfolding edit type_text cancel commit
commit_refused c undefined t h = (ground arith, ground arith)
commit_refused c (boolean b) t h = (ground arith, ground arith)
commit_refused c (str s) t h = (ground arith, ground arith)
commit_refused c (array xs) t h = (ground arith, ground arith)

-- Editing an option for arrays that the server has not set throws, with the editor left open.
pub edit_unset :
    (c : Config)
    → c.is_array ≡ true
    → ((edit c (fresh none)).1 ≡ true) × ((edit c (fresh none)).0.editing ≡ true)
unfolding edit
edit_unset c on = (ground arith, ground arith)
