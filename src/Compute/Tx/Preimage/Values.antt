-- ===== src/Compute/Tx/Preimage/Values.antt =====
-- The encoders of the values that a transaction holds are prefix codes.
use rabbit_chain_node.Prelude.{ℕ, ◌<◌, ◌≡◌, ◌≢◌, refl, sym, ap, [], ◌∷◌, ◌++◌, arith, All}
use rabbit_chain_node.Compute.Types.{
  Hash, Bytes, Text, Script, ResourceValue, amount, blob, ref, ref_batch, ResourceMap, Ownership,
  address, program, shared, ed25519, ObjectKind, Metadata, Command,
}
use rabbit_chain_node.Compute.Tx.Preimage.{
  to_be_bytes, utf8, as_bytes, command_tag, object_kind_tag, encode_bytes, encode_script,
  encode_value, encode_resource, encode_resource_map, encode_entry, encode_metadata,
  encode_ownership,
}
use rabbit_chain_node.Compute.Tx.Preimage.Codes.{
  PrefixCode, IsWord, word, seq, ListFits, counted, BytesFit, bytes,
}

abbrev pub IsCodePoint : ℕ → Type 0
IsCodePoint c = c < 0x11_0000

utf8_split :
    (c d : ℕ) (r s : Bytes)
    → IsCodePoint c
    → IsCodePoint d
    → utf8 c ++ r ≡ utf8 d ++ s
    → (c ≡ d) × (r ≡ s)
unfolding utf8
utf8_split c d r s v w h = ground arith

utf8_nonempty : (c : ℕ) (r : Bytes) → utf8 c ++ r ≢ []
unfolding utf8
utf8_nonempty c r h = ground arith

abbrev pub IsText : Text → Type 0
IsText t = All IsCodePoint t

as_bytes-injective : (t u : Text) → IsText t → IsText u → as_bytes t ≡ as_bytes u → t ≡ u
unfolding as_bytes
as_bytes-injective [] [] v w h = refl
as_bytes-injective [] (d ∷ u) v w h = absurd (utf8_nonempty d (as_bytes u) (sym h))
as_bytes-injective (c ∷ t) [] v w h = absurd (utf8_nonempty c (as_bytes t) h)
as_bytes-injective (c ∷ t) (d ∷ u) v w h =
    let (head, rest) = utf8_split c d (as_bytes t) (as_bytes u) v.0 w.0 h in
    let tail = as_bytes-injective t u v.1 w.1 rest in λ i. head i ∷ tail i

abbrev pub TextFits : Text → Type 0
TextFits t = IsText t × BytesFit (as_bytes t)

text : PrefixCode TextFits (λ t. encode_bytes (as_bytes t))
text = record {
  split = λ t u r s v w h.
      let (e, tail) = bytes.split (as_bytes t) (as_bytes u) r s v.1 w.1 h in
      (as_bytes-injective t u v.0 w.0 e, tail);
}

pub hash : PrefixCode (IsWord 32) (to_be_bytes 32)
hash = word 32

abbrev pub EntryFits : Text × Bytes → Type 0
EntryFits e = TextFits e.0 × BytesFit e.1

entry : PrefixCode EntryFits encode_entry
entry = seq text bytes

abbrev pub MetadataFits : Metadata → Type 0
MetadataFits = ListFits EntryFits

pub metadata : PrefixCode MetadataFits encode_metadata
unfolding encode_metadata
metadata = counted entry

abbrev pub ScriptFits : Script → Type 0
ScriptFits s = BytesFit s.code

script_split :
    (x y : Script) (r s : Bytes)
    → ScriptFits x
    → ScriptFits y
    → encode_script x ++ r ≡ encode_script y ++ s
    → (x ≡ y) × (r ≡ s)
unfolding encode_script
script_split x y r s v w h =
    let vm : x.vm ≡ y.vm = cc in
    let (e, tail) = bytes.split x.code y.code r s v w (cc) in
    (λ i. record { vm = vm i; code = e i }, tail)

pub script : PrefixCode ScriptFits encode_script
script = record { split = script_split }

abbrev pub ValueFits : ResourceValue → Type 0
ValueFits (amount v) = IsWord 16 v
ValueFits (blob b) = BytesFit b
ValueFits (ref object) = IsWord 32 object
ValueFits (ref_batch objects) = ListFits (IsWord 32) objects

value_split :
    (x y : ResourceValue) (r s : Bytes)
    → ValueFits x
    → ValueFits y
    → encode_value x ++ r ≡ encode_value y ++ s
    → (x ≡ y) × (r ≡ s)
value_split (amount a) (amount b) r s v w h =
    let (e, tail) = (word 16).split a b r s v w (cc) in (ap amount e, tail)
value_split (blob a) (blob b) r s v w h =
    let (e, tail) = bytes.split a b r s v w (cc) in (ap blob e, tail)
value_split (ref a) (ref b) r s v w h =
    let (e, tail) = hash.split a b r s v w (cc) in (ap ref e, tail)
value_split (ref_batch a) (ref_batch b) r s v w h =
    let (e, tail) = (counted hash).split a b r s v w (cc) in (ap ref_batch e, tail)
value_split _ _ r s v w h = cc

abbrev pub ResourceFits : Hash × ResourceValue → Type 0
ResourceFits e = IsWord 32 e.0 × ValueFits e.1

resource : PrefixCode ResourceFits encode_resource
resource = seq {P = IsWord 32} {Q = ValueFits} hash (record { split = value_split })

abbrev pub ResourceMapFits : ResourceMap → Type 0
ResourceMapFits = ListFits ResourceFits

pub resource_map : PrefixCode ResourceMapFits encode_resource_map
unfolding encode_resource_map
resource_map = counted resource

abbrev pub OwnershipFits : Ownership → Type 0
OwnershipFits (address a) = IsWord 20 a
OwnershipFits (program a) = IsWord 20 a
OwnershipFits shared = Unit
OwnershipFits (ed25519 key) = IsWord 32 key

ownership_split :
    (x y : Ownership) (r s : Bytes)
    → OwnershipFits x
    → OwnershipFits y
    → encode_ownership x ++ r ≡ encode_ownership y ++ s
    → (x ≡ y) × (r ≡ s)
unfolding encode_ownership
ownership_split (address a) (address b) r s v w h =
    let (e, tail) = (word 20).split a b r s v w (cc) in (ap address e, tail)
ownership_split (program a) (program b) r s v w h =
    let (e, tail) = (word 20).split a b r s v w (cc) in (ap program e, tail)
ownership_split shared shared r s v w h = (refl, cc)
ownership_split (ed25519 a) (ed25519 b) r s v w h =
    let (e, tail) = hash.split a b r s v w (cc) in (ap ed25519 e, tail)
ownership_split _ _ r s v w h = cc

pub ownership : PrefixCode OwnershipFits encode_ownership
ownership = record { split = ownership_split }

-- A tag of one byte, from a function into the numbers that keeps values apart.
pub tag :
    {A : Type 0} (f : A → ℕ)
    → ((a b : A) → f a ≡ f b → a ≡ b)
    → PrefixCode (λ a. Unit {0}) (λ a. f a ∷ [])
tag f apart = record { split = λ a b r s v w h. (apart a b (cc), cc) }

kind_apart : (j k : ObjectKind) → object_kind_tag j ≡ object_kind_tag k → j ≡ k
unfolding object_kind_tag
kind_apart j k h = ground arith

pub kind : PrefixCode (λ k. Unit {0}) (λ k. object_kind_tag k ∷ [])
kind = tag object_kind_tag kind_apart

command_apart : (j k : Command) → command_tag j ≡ command_tag k → j ≡ k
unfolding command_tag
command_apart j k h = ground arith

pub command : PrefixCode (λ c. Unit {0}) (λ c. command_tag c ∷ [])
command = tag command_tag command_apart
