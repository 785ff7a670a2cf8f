-- ===== src/Compute/Tx/Preimage/Codes.antt =====
-- Prefix codes: what is written determines the value and where its bytes end, whatever follows.
use rabbit_chain_node.Prelude.{
  ℕ, zero, suc, ◌/◌, ◌%◌, ◌^◌, ◌<◌, ◌≡◌, refl, sym, ap, ◌∙◌, List, [], ◌∷◌, ◌++◌, Option, none,
  some, append_assoc, arith, length, All,
}
use native.Mathlib.Nat.{pow-suc}
use rabbit_chain_node.Compute.Types.{Bytes}
use rabbit_chain_node.Compute.Tx.Preimage.{
  to_be_bytes, encode_len, encode_bytes, concat_map, encode_option,
}

-- `Fits` is the range in which the encoder keeps the whole value.
pub record PrefixCode {A : Type 0} (Fits : A → Type 0) (encode : A → Bytes) : Type 0 where
  pub split :
      (a b : A) (r s : Bytes) → Fits a → Fits b → encode a ++ r ≡ encode b ++ s → (a ≡ b) × (r ≡ s)

-- A word of `n` bytes.
abbrev pub IsWord : ℕ → ℕ → Type 0
IsWord n v = v < 256 ^ n

word_split :
    (n v w : ℕ) (r s : Bytes)
    → IsWord n v
    → IsWord n w
    → to_be_bytes n v ++ r ≡ to_be_bytes n w ++ s
    → (v ≡ w) × (r ≡ s)
unfolding to_be_bytes
word_split zero v w r s hv hw h = (omega arith, h)
word_split (suc n) v w r s hv hw h =
    let (high, low) =
      word_split n (v / 256) (w / 256) ((v % 256) ∷ r) ((w % 256) ∷ s)
        (omega (arith, pow-suc 256 n)) (omega (arith, pow-suc 256 n))
        (sym (append_assoc (to_be_bytes n (v / 256)) ((v % 256) ∷ []) r)
          ∙ h
          ∙ append_assoc (to_be_bytes n (w / 256)) ((w % 256) ∷ []) s) in
    let digit : v % 256 ≡ w % 256 = cc in (omega arith, cc)

pub word : (n : ℕ) → PrefixCode (IsWord n) (to_be_bytes n)
word n = record { split = word_split n }

-- One code after another, on pairs.
pub seq :
    {A B : Type 0} {P : A → Type 0} {Q : B → Type 0} {e : A → Bytes} {f : B → Bytes}
    → PrefixCode P e
    → PrefixCode Q f
    → PrefixCode {A = A × B} (λ p. P p.0 × Q p.1) (λ p. e p.0 ++ f p.1)
seq {e} {f} c d = record {
  split = λ p q r s v w h.
      let (x, rest) =
        c.split p.0 q.0 (f p.1 ++ r) (f q.1 ++ s) v.0 w.0
          (sym (append_assoc (e p.0) (f p.1) r) ∙ h ∙ append_assoc (e q.0) (f q.1) s) in
      let (y, tail) = d.split p.1 q.1 r s v.1 w.1 rest in (λ i. (x i, y i), tail);
}

-- Pairs and codes in a row, to the right.
infixr 6 ◌&◌ ◌~>◌
abbrev pub ◌&◌ : {A B : Type 0} → A → B → A × B
a & b = (a, b)

pub ◌~>◌ :
    {A B : Type 0} {P : A → Type 0} {Q : B → Type 0} {e : A → Bytes} {f : B → Bytes}
    → PrefixCode P e
    → PrefixCode Q f
    → PrefixCode {A = A × B} (λ p. P p.0 × Q p.1) (λ p. e p.0 ++ f p.1)
c ~> d = seq c d

-- A code read through a function that loses nothing.
pub through :
    {A B : Type 0} {Q : B → Type 0} {f : B → Bytes} (g : A → B) (back : B → A)
    → ((a : A) → back (g a) ≡ a)
    → PrefixCode Q f
    → PrefixCode (λ a. Q (g a)) (λ a. f (g a))
through g back same d = record {
  split = λ a b r s v w h.
      let (e, tail) = d.split (g a) (g b) r s v w h in (sym (same a) ∙ ap back e ∙ same b, tail);
}

abbrev pub OptionFits : {A : Type 0} → (A → Type 0) → Option A → Type 0
OptionFits P none = Unit
OptionFits P (some a) = P a

module _ {A : Type 0} {P : A → Type 0} {e : A → Bytes} (c : PrefixCode P e) where
  option_split :
      (o p : Option A) (r s : Bytes)
      → OptionFits P o
      → OptionFits P p
      → encode_option e o ++ r ≡ encode_option e p ++ s
      → (o ≡ p) × (r ≡ s)
  option_split none none r s v w h = (refl, cc)
  option_split none (some b) r s v w h = cc
  option_split (some a) none r s v w h = cc
  option_split (some a) (some b) r s v w h =
      let (x, tail) = c.split a b r s v w (cc) in (ap some x, tail)

  pub option : PrefixCode (OptionFits P) (encode_option e)
  option = record { split = option_split }

  -- Lists of one length.
  pub items_split :
      (xs ys : List A) (r s : Bytes)
      → length xs ≡ length ys
      → All P xs
      → All P ys
      → concat_map e xs ++ r ≡ concat_map e ys ++ s
      → (xs ≡ ys) × (r ≡ s)
  items_split [] [] r s n v w h = (refl, h)
  items_split [] (y ∷ ys) r s n v w h = absurd (omega arith)
  items_split (x ∷ xs) [] r s n v w h = absurd (omega arith)
  items_split (x ∷ xs) (y ∷ ys) r s n v w h =
      let (head, rest) = c.split x y (concat_map e xs ++ r) (concat_map e ys ++ s) v.0 w.0 (
        sym (append_assoc (e x) (concat_map e xs) r)
        ∙ h
        ∙ append_assoc (e y) (concat_map e ys) s) in
      let (tail, end) = items_split xs ys r s (omega arith) v.1 w.1 rest in
      (λ i. head i ∷ tail i, end)

abbrev pub IsLength : ℕ → Type 0
IsLength n = n < 2 ^ 32

len_split :
    (m n : ℕ) (r s : Bytes)
    → IsLength m
    → IsLength n
    → encode_len m ++ r ≡ encode_len n ++ s
    → (m ≡ n) × (r ≡ s)
unfolding encode_len
len_split m n r s hm hn h =
    let (e, tail) = (word 4).split (m % 2 ^ 32) (n % 2 ^ 32) r s (omega arith) (omega arith) h in
    (omega arith, tail)

pub len : PrefixCode IsLength encode_len
len = record { split = len_split }

abbrev pub ListFits : {A : Type 0} → (A → Type 0) → List A → Type 0
ListFits P xs = IsLength (length xs) × All P xs

module _ {A : Type 0} {P : A → Type 0} {e : A → Bytes} (c : PrefixCode P e) where
  -- A length and the items.
  pub counted : PrefixCode (ListFits P) (λ xs. encode_len (length xs) ++ concat_map e xs)
  counted = record {
    split = λ xs ys r s v w h.
        let (n, rest) =
          len.split (length xs) (length ys) (concat_map e xs ++ r) (concat_map e ys ++ s) v.0 w.0 (
            sym (append_assoc (encode_len (length xs)) (concat_map e xs) r)
            ∙ h
            ∙ append_assoc (encode_len (length ys)) (concat_map e ys) s) in
        items_split c xs ys r s n v.1 w.1 rest;
  }

-- Two lists of one length in front of something are equal.
pub same_length_split :
    (xs ys r s : Bytes) → length xs ≡ length ys → xs ++ r ≡ ys ++ s → (xs ≡ ys) × (r ≡ s)
same_length_split [] [] r s n h = (refl, h)
same_length_split [] (y ∷ ys) r s n h = absurd (omega arith)
same_length_split (x ∷ xs) [] r s n h = absurd (omega arith)
same_length_split (x ∷ xs) (y ∷ ys) r s n h =
    let (tail, end) = same_length_split xs ys r s (omega arith) (cc) in
    let head : x ≡ y = cc in (λ i. head i ∷ tail i, end)

abbrev pub BytesFit : Bytes → Type 0
BytesFit bytes = IsLength (length bytes)

bytes_split :
    (xs ys r s : Bytes)
    → BytesFit xs
    → BytesFit ys
    → encode_bytes xs ++ r ≡ encode_bytes ys ++ s
    → (xs ≡ ys) × (r ≡ s)
unfolding encode_bytes
bytes_split xs ys r s v w h =
    let (n, rest) = len.split (length xs) (length ys) (xs ++ r) (ys ++ s) v w (
      sym (append_assoc (encode_len (length xs)) xs r)
      ∙ h
      ∙ append_assoc (encode_len (length ys)) ys s) in
    same_length_split xs ys r s n rest

pub bytes : PrefixCode BytesFit encode_bytes
bytes = record { split = bytes_split }
