-- ===== src/Memory/Laws.antt =====
-- What a store changes, and what a load finds after it.
use communicate_core.Common.{
  ℕ, zero, suc, ◌+◌, ◌*◌, ◌/◌, ◌%◌, ◌^◌, ◌≤◌, ◌<◌, ◌≡◌, ◌⊎◌, refl, ◌∙◌, List, [], ◌∷◌, none, some,
  arith, length, length-set, get_or-set_self, get_or-set_ne, set, leb_of_le, leb_of_lt,
}
use native.Mathlib.Nat.{pow-suc}
use communicate_core.Memory.Access.{byte_at, peek, poke, load, store}

pub load_in_range :
    (n : ℕ) (buf : List ℕ) (off : ℕ) → off + n ≤ length buf → load n buf off ≡ some (peek n buf off)
unfolding load
load_in_range n buf off h = rw (leb_of_le _ _ h)

pub store_in_range :
    (n : ℕ) (buf : List ℕ) (off v : ℕ)
    → off + n ≤ length buf
    → store n buf off v ≡ some (poke n buf off v)
unfolding store
store_in_range n buf off v h = rw (leb_of_le _ _ h)

pub length-poke : (n : ℕ) (buf : List ℕ) (off v : ℕ) → length (poke n buf off v) ≡ length buf
unfolding poke
length-poke zero buf off v = refl
length-poke (suc n) buf off v =
    length-poke n (set buf off (v % 256)) (off + 1) (v / 256) ∙ length-set buf off (v % 256)

pub byte_at-poke_outside :
    (n : ℕ) (buf : List ℕ) (off v j : ℕ)
    → (j < off) ⊎ (off + n ≤ j)
    → byte_at (poke n buf off v) j ≡ byte_at buf j
unfolding poke
byte_at-poke_outside zero buf off v j h = refl
byte_at-poke_outside (suc n) buf off v j h =
    byte_at-poke_outside n (set buf off (v % 256)) (off + 1) (v / 256) j (omega arith)
    ∙ get_or-set_ne buf off j (v % 256) 0 (omega arith)

-- A load sees only the bytes that it reads.
pub peek_cong :
    (n : ℕ) (a b : List ℕ) (off : ℕ)
    → ((j : ℕ) → off ≤ j → j < off + n → byte_at a j ≡ byte_at b j)
    → peek n a off ≡ peek n b off
unfolding peek
peek_cong zero a b off h = refl
peek_cong (suc n) a b off h = omega (
  arith,
  h off (omega arith) (omega arith),
  peek_cong n a b (off + 1) (λ j p q. h j (omega arith) (omega arith)),
)

pub peek-poke_apart :
    (m : ℕ) (n : ℕ) (buf : List ℕ) (at off v : ℕ)
    → (at + m ≤ off) ⊎ (off + n ≤ at)
    → peek m (poke n buf off v) at ≡ peek m buf at
peek-poke_apart m n buf at off v h =
    peek_cong m _ _ at (λ j p q. byte_at-poke_outside n buf off v j (omega arith))

pub peek-poke_self :
    (n : ℕ) (buf : List ℕ) (off v : ℕ)
    → off + n ≤ length buf
    → v < 256 ^ n
    → peek n (poke n buf off v) off ≡ v
unfolding peek poke
peek-poke_self zero buf off v h w = omega arith
peek-poke_self (suc n) buf off v h w = omega (
  arith,
  pow-suc 256 n,
  byte_at-poke_outside n (set buf off (v % 256)) (off + 1) (v / 256) off (omega arith),
  get_or-set_self buf off (v % 256) 0 (omega arith),
  peek-poke_self n (set buf off (v % 256)) (off + 1) (v / 256)
      (omega (arith, length-set buf off (v % 256))) (omega (arith, pow-suc 256 n)),
)

-- A buffer whose cells are bytes.
abbrev pub IsBytes : List ℕ → Type 0
IsBytes buf = (j : ℕ) → byte_at buf j < 256

pub peek-lt : (n : ℕ) (buf : List ℕ) (off : ℕ) → IsBytes buf → peek n buf off < 256 ^ n
unfolding peek
peek-lt zero buf off h = omega arith
peek-lt (suc n) buf off h = omega (arith, pow-suc 256 n, h off, peek-lt n buf (off + 1) h)

set-IsBytes : (buf : List ℕ) (i v : ℕ) → v < 256 → IsBytes buf → IsBytes (set buf i v)
set-IsBytes [] i v w h j = h j
set-IsBytes (x ∷ xs) zero v w h zero = w
set-IsBytes (x ∷ xs) zero v w h (suc j) = h (suc j)
set-IsBytes (x ∷ xs) (suc i) v w h zero = h 0
set-IsBytes (x ∷ xs) (suc i) v w h (suc j) = set-IsBytes xs i v w (λ k. h (suc k)) j

pub poke-IsBytes : (n : ℕ) (buf : List ℕ) (off v : ℕ) → IsBytes buf → IsBytes (poke n buf off v)
unfolding poke
poke-IsBytes zero buf off v h = h
poke-IsBytes (suc n) buf off v h =
    poke-IsBytes n _ (off + 1) (v / 256) (set-IsBytes buf off (v % 256) (omega arith) h)

pub peek-one : (buf : List ℕ) (i : ℕ) → peek 1 buf i ≡ byte_at buf i
unfolding peek
peek-one buf i = omega arith

pub peek-two : (buf : List ℕ) (i : ℕ) → peek 2 buf i ≡ byte_at buf i + 256 * byte_at buf (i + 1)
unfolding peek
peek-two buf i = omega arith

pub store_out_of_range :
    (n : ℕ) (buf : List ℕ) (off v : ℕ) → length buf < off + n → store n buf off v ≡ none
unfolding store
store_out_of_range n buf off v h = rw (leb_of_lt _ _ h)

-- The same of a list that is written out.
abbrev pub AllBytes : List ℕ → Type 0
AllBytes [] = Unit {0}
AllBytes (x ∷ xs) = (x < 256) × AllBytes xs

pub IsBytes-of_all : (buf : List ℕ) → AllBytes buf → IsBytes buf
IsBytes-of_all [] h j = omega arith
IsBytes-of_all (x ∷ xs) h zero = h.0
IsBytes-of_all (x ∷ xs) h (suc j) = IsBytes-of_all xs h.1 j
