-- ===== src/Testnet/Flags.antt =====
-- Sets of indexes, and the flags of a list at the indexes of a range.
use xbridge_witness.Base.{
  ℕ, ◌+◌, ◌-◌, ◌∷◌, ◌<◌, ◌≤◌, ◌≡◌, String, refl, sym, subst, Bool, true, false, ◌&&◌, ◌||◌, Option,
  none, some, List, [], ◌=ℕ◌, Bool-cases, inl, inr, arith, length, get_elem?, All, if◌then◌else◌,
  leb, ltb, map, length-append, length-replicate, replicate,
}
use xbridge_witness.Testnet.Network.{mem, adjoin, range, pad}
use xbridge_witness.Testnet.Servers.{padded_args}
use xbridge_witness.Testnet.Invariant.{lt_of_get_elem?}

-- A flag is set.
abbrev pub flag : Option Bool → Bool
flag (some true) = true
flag _ = false

pub mem-adjoin : (i j : ℕ) (s : List ℕ) → mem j (adjoin i s) ≡ (i =ℕ j || mem j s)
unfolding adjoin
mem-adjoin i j [] = ground arith
mem-adjoin i j (k ∷ s) = ground (arith, mem-adjoin i j s)

pub mem-range : (j k n : ℕ) → mem j (range k n) ≡ (leb k j && ltb j (k + n))
mem-range j k ℕ.zero = ground arith
mem-range j k (ℕ.suc n) = ground (arith, mem-range j (k + 1) n)

pub found {ℓ} :
    {A : Type ℓ} (xs : List A) (i : ℕ) → i < length xs → (x : A) × (get_elem? xs i ≡ some x)
found [] i h = absurd (omega arith)
found (x ∷ xs) ℕ.zero h = (x, refl)
found (x ∷ xs) (ℕ.suc i) h = found xs i (omega arith)

pub length-pad {ℓ} : {A : Type ℓ} (n : ℕ) (a : A) (xs : List A) → n ≤ length (pad n a xs)
length-pad n a xs =
    omega
      (arith, length-append xs (replicate (n - length xs) a), length-replicate (n - length xs) a)

pub length-padded_args :
    (n : ℕ) (args : Option (List (List String))) → n ≤ length (padded_args n args)
length-padded_args n none = length-pad n [] []
length-padded_args n (some args) = length-pad n [] args

eq_of_=ℕ : (i j : ℕ) → (i =ℕ j) ≡ true → i ≡ j
eq_of_=ℕ i j h = ground arith

pub =ℕ-refl : (i : ℕ) → (i =ℕ i) ≡ true
=ℕ-refl i = ground arith

pub ||-true : (b : Bool) → (b || true) ≡ true
||-true true = refl
||-true false = refl

pub ||-false : (b : Bool) → (b || false) ≡ b
||-false true = refl
||-false false = refl

-- A server that is asked for and may run.
pub joined :
    (i j : ℕ) (b : Bool) (flags : List Bool)
    → get_elem? flags i ≡ some true
    → (i =ℕ j || b) ≡ (b || i =ℕ j && flag (get_elem? flags j))
joined i j b flags h = elim (Bool-cases (i =ℕ j)) [
  | inl e ↦ rw (e, ← eq_of_=ℕ i j e, h, ||-true)
  | inr e ↦ rw (e, ||-false)
]

-- A server that runs, or may not run.
pub passed :
    (i j : ℕ) (s : List ℕ) (flags : List Bool)
    → (mem i s || (true && flag (get_elem? flags i))) ≡ mem i s
    → mem j s ≡ (mem j s || i =ℕ j && flag (get_elem? flags j))
passed i j s flags h = elim (Bool-cases (i =ℕ j)) [
  | inl e ↦ rw (e, ← eq_of_=ℕ i j e) (sym h)
  | inr e ↦ rw (e, ||-false)
]

pub both : (b x y f : Bool) → (b || x && f || y && f) ≡ (b || (if x then true else y) && f)
both b true y true = ground arith
both b true y false = ground arith
both b false y f = ground arith

pub below_eq : (m n : ℕ) (s : List ℕ) → m ≡ n → All (λ i. i < m) s → All (λ i. i < n) s
below_eq m n s e h = subst (λ m. All (λ i. i < m) s) e h

pub range_bounded : (k n : ℕ) → All (λ i. i < k + n) (range k n)
range_bounded k ℕ.zero = tt
range_bounded k (ℕ.suc n) =
    (omega arith, below_eq (k + 1 + n) (k + ℕ.suc n) _ (omega arith) (range_bounded (k + 1) n))

pub map-range :
    (flags : List Bool) (f : ℕ → Bool) (k : ℕ)
    → ((i : ℕ) (b : Bool) → get_elem? flags i ≡ some b → f (k + i) ≡ b)
    → map f (range k (length flags)) ≡ flags
map-range [] f k h = refl
map-range (b ∷ flags) f k h =
    let rest =
      map-range flags f (k + 1) (λ i c e. subst (λ m. f m ≡ c) (omega arith) (h (ℕ.suc i) c e)) in
    let first : f k ≡ b = subst (λ m. f m ≡ b) (omega arith) (h 0 b refl) in rw (first, rest)

pub map-range_zero :
    (flags : List Bool) (f : ℕ → Bool)
    → ((i : ℕ) (b : Bool) → get_elem? flags i ≡ some b → f i ≡ b)
    → map f (range 0 (length flags)) ≡ flags
map-range_zero flags f h =
    map-range flags f 0 (λ i b e. subst (λ m. f m ≡ b) (omega arith) (h i b e))

pub flag_of : (b c : Bool) → c ≡ true → (c && flag (some b)) ≡ b
flag_of true c e = rw e
flag_of false c e = rw e

pub status_of :
    (flags : List Bool) (i : ℕ) (b : Bool)
    → get_elem? flags i ≡ some b
    → (mem i (range 0 (length flags)) && flag (get_elem? flags i)) ≡ b
status_of flags i b e =
    let lt = lt_of_get_elem? flags i e in
    rw (e, mem-range i 0 (length flags))
      (flag_of b (leb 0 i && ltb i (0 + length flags)) (ground arith))
