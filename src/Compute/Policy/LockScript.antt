-- ===== src/Compute/Policy/LockScript.antt =====
-- The lock scripts (`evaluate_lock_script`, compute/policy.rs).
use rabbit_chain_node.Prelude.{
  ℕ, zero, suc, Bool, true, false, not, ◌&&◌, ◌||◌, [], ◌∷◌, Option, none, some, ltb, leb, ◌==◌,
  if◌then◌else◌, is_empty, list_eq, length,
}
use rabbit_chain_node.Compute.Types.{
  Bytes, Script, ComputeTx, authorization_denied, invalid_operation, Reason, ComputeResult, ok, err,
}

-- The bytes that may follow a lead byte of UTF-8: their number, and the range of the first.
abbrev lead : ℕ → Option (ℕ × ℕ × ℕ)
lead b =
    if ltb b 0x80
    then some (0, 0x80, 0xbf)
    else (if leb 0xc2 b && leb b 0xdf
        then some (1, 0x80, 0xbf)
        else (if b == 0xe0
            then some (2, 0xa0, 0xbf)
            else (if b == 0xed
                then some (2, 0x80, 0x9f)
                else (if leb 0xe1 b && leb b 0xef
                    then some (2, 0x80, 0xbf)
                    else (if b == 0xf0
                        then some (3, 0x90, 0xbf)
                        else (if leb 0xf1 b && leb b 0xf3
                            then some (3, 0x80, 0xbf)
                            else (if b == 0xf4 then some (3, 0x80, 0x8f) else none)))))))

-- `n` bytes are still due, the next of them between `lo` and `hi`.
utf8_from : ℕ → ℕ → ℕ → Bytes → Bool
utf8_from zero lo hi [] = true
utf8_from (suc n) lo hi [] = false
utf8_from zero lo hi (b ∷ bs) = elim (lead b) [ none ↦ false | some (n, l, h) ↦ utf8_from n l h bs ]
utf8_from (suc n) lo hi (b ∷ bs) = leb lo b && leb b hi && utf8_from n 0x80 0xbf bs

-- `str::from_utf8(..).is_ok()`
unfoldable pub is_utf8 : Bytes → Bool
unfolding utf8_from
is_utf8 code = utf8_from 0 0x80 0xbf code

-- The rest behind a prefix.
unfoldable pub strip_prefix : Bytes → Bytes → Option Bytes
strip_prefix [] bs = some bs
strip_prefix (p ∷ ps) [] = none
strip_prefix (p ∷ ps) (b ∷ bs) = if p == b then strip_prefix ps bs else none

-- `trim_start_matches`: the prefix is taken off as often as it stands there. The fuel is the length.
unfoldable pub trim_start_matches : ℕ → Bytes → Bytes → Bytes
trim_start_matches zero prefix bs = bs
trim_start_matches (suc fuel) prefix bs = elim (strip_prefix prefix bs) [
  | none ↦ bs
  | some rest ↦ trim_start_matches fuel prefix rest
]

abbrev pub allow : Bytes
allow = b'A' ∷ b'L' ∷ b'L' ∷ b'O' ∷ b'W' ∷ []

abbrev pub require_sig : Bytes
require_sig = b'R' ∷ b'E' ∷ b'Q' ∷ b'U' ∷ b'I' ∷ b'R' ∷ b'E' ∷ b'_' ∷ b'S' ∷ b'I' ∷ b'G' ∷ []

abbrev pub require_ed25519 : Bytes
require_ed25519 =
    b'R' ∷ b'E' ∷ b'Q' ∷ b'U' ∷ b'I' ∷ b'R' ∷ b'E' ∷ b'_' ∷ b'E' ∷ b'D' ∷ b'2' ∷ b'5' ∷ b'5' ∷ b'1'
    ∷ b'9' ∷ []

abbrev pub payload_eq : Bytes
payload_eq = b'P' ∷ b'A' ∷ b'Y' ∷ b'L' ∷ b'O' ∷ b'A' ∷ b'D' ∷ b'_' ∷ b'E' ∷ b'Q' ∷ b':' ∷ []

-- `decode_hex` is `hex::decode` of the crate hex. Every signature has the scheme ed25519, so the two
-- requirements on signatures come to the same.
unfoldable pub evaluate_lock_script :
    (Bytes → Option Bytes) → Script → ComputeTx → ComputeResult (Unit {0})
unfolding is_utf8 strip_prefix trim_start_matches list_eq
evaluate_lock_script decode_hex lock tx =
    if is_empty lock.code
    then ok tt
    else (if not (lock.vm == 0 || lock.vm == 1)
        then err (invalid_operation (Reason.unsupported_lock_vm lock.vm))
        else (if not (is_utf8 lock.code)
            then err (invalid_operation Reason.lock_not_utf8)
            else (if list_eq lock.code allow
                then ok tt
                else (if list_eq lock.code require_sig || list_eq lock.code require_ed25519
                    then (if is_empty tx.witness.signatures
                        then err authorization_denied
                        else ok tt)
                    else elim (strip_prefix payload_eq lock.code) [
                      | none ↦
                          err (invalid_operation (Reason.unsupported_lock_expression lock.code))
                      | some _ ↦
                          elim (decode_hex
                            (trim_start_matches (length lock.code) payload_eq lock.code)) [
                              | none ↦
                                  err (invalid_operation (Reason.invalid_payload_hex lock.code))
                              | some expected ↦
                                  if list_eq expected tx.payload
                                  then ok tt
                                  else err authorization_denied
                            ]
                    ]))))
