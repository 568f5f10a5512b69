-- ===== src/Markdown/Monad.antt =====
-- A function of src/markdown.c reads and changes the heap and returns SUCCESS or another code.
-- `if (r != SUCCESS) return r;` is the bind: the heap keeps what was written before.
use collab_markdown_server.Base.{Bool, true, false, ◌≡◌, refl, ◌⊎◌, inl, inr}
use collab_markdown_server.Markdown.Document.{Heap}

-- INVALID_CURSOR_POS, DELETED_POSITION and OUTDATED_VERSION of include/markdown.h
pub data Status : Type 0 where
  invalid_cursor_pos deleted_position outdated_version : Status

-- SUCCESS, with what is stored through pointer arguments, or another code
pub data Outcome {ℓ} (A : Type ℓ) : Type ℓ where
  ok : A → Outcome A
  fail : Status → Outcome A

abbrev pub M : Type 0 → Type 0
M A = Heap → Outcome A × Heap

abbrev continue : {A B : Type 0} → Outcome A → (A → M B) → M B
continue (ok a) f h = f a h
continue (fail s) f h = (fail s, h)

infixl 5 ◌>>=◌ ◌>>◌
abbrev pub ◌>>=◌ : {A B : Type 0} → M A → (A → M B) → M B
◌>>=◌ m f h = let (r, h') = m h in continue r f h'

abbrev pub ◌>>◌ : {B : Type 0} → M (Unit {0}) → M B → M B
m >> k = m >>= λ _. k

abbrev pub pure : {A : Type 0} → A → M A
pure a h = (ok a, h)

-- an outcome that was computed without a change of the heap
abbrev pub lift : {A : Type 0} → Outcome A → M A
lift r h = (r, h)

-- `if (!test) return s;`
abbrev pub guard : Bool → Status → M (Unit {0})
guard true s = pure tt
guard false s = lift (fail s)

pub Outcome-cases :
    {A : Type 0} (o : Outcome A) → ((a : A) × (o ≡ ok a)) ⊎ ((s : Status) × (o ≡ fail s))
Outcome-cases (ok a) = inl (a, refl)
Outcome-cases (fail s) = inr (s, refl)
