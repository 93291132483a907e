-- ===== src/Storage/Framing.antt =====
-- What `ClamAVAttachmentScanner._scan_response` of backend/app/core/scanning.py sends, against the
-- framing that the INSTREAM command of the daemon asks for.
use Prim.Native.Nat.{◌/◌, ◌%◌}
use mathlib.Core.List.{append_assoc}
use chatterbox.Prelude.{
  ℕ, zero, suc, ◌+◌, ◌*◌, ◌<◌, false, Option, none, some, List, [], ◌∷◌, ◌++◌, ◌≡◌, refl, arith,
  All, length, take, drop, ◌==◌, if◌then◌else◌,
}
use chatterbox.Prelude.Prefixes.{take-append, drop-append}
use chatterbox.Models.{Text}

-- `struct.pack("!I", n)`: the low 32 bits of a number, the highest byte first
abbrev pub pack : ℕ → List ℕ
pack n = n / 16_777_216 % 256 ∷ n / 65_536 % 256 ∷ n / 256 % 256 ∷ n % 256 ∷ []

-- the loop over the chunks, and the empty chunk that ends them
unfoldable pub send_chunks : List Text → List ℕ
send_chunks [] = pack 0
send_chunks (chunk ∷ chunks) = pack (length chunk) ++ (chunk ++ send_chunks chunks)

-- The daemon's side of the protocol, on fuel: a length in four bytes, the highest first, and as many
-- bytes, up to a length of zero. It gives the stream, and what is left of the bytes.
pub read_chunks : ℕ → List ℕ → Option (Text × List ℕ)
read_chunks zero bytes = none
read_chunks (suc fuel) (a ∷ b ∷ c ∷ d ∷ bytes) =
    let n = a * 16_777_216 + b * 65_536 + c * 256 + d in
    let rest = read_chunks fuel (drop n bytes) in
    if n == 0
    then some ([], bytes)
    else (elim rest [ none ↦ none | some (stream, left) ↦ some (take n bytes ++ stream, left) ])
read_chunks (suc fuel) _ = none

-- `chunk` after `chunk`
abbrev pub concat : List Text → Text
concat [] = []
concat (chunk ∷ chunks) = chunk ++ concat chunks

-- four bytes are read as the number that was packed
unpack-pack :
    (n : ℕ)
    → n < 4_294_967_296
    → n / 16_777_216 % 256 * 16_777_216 + n / 65_536 % 256 * 65_536 + n / 256 % 256 * 256 + n % 256
      ≡ n
unpack-pack n h = omega (arith, h)

-- The stream that the daemon reads is the object: if no chunk is empty or of 2 ^ 32 bytes or more, then
-- more rounds than there are chunks read exactly the bytes of the chunks in order, and leave what
-- follows.
pub read_chunks-send_chunks :
    (fuel : ℕ) (chunks : List Text) (left : List ℕ)
    → length chunks < fuel
    → All (λ c. (0 < length c) × (length c < 4_294_967_296)) chunks
    → read_chunks fuel (send_chunks chunks ++ left) ≡ some (concat chunks, left)
unfolding read_chunks send_chunks
read_chunks-send_chunks zero chunks left enough h = absurd (omega (arith, enough))
read_chunks-send_chunks (suc fuel) [] left enough h = refl
read_chunks-send_chunks (suc fuel) (c ∷ cs) left enough ((some', small), h) =
    let ih = read_chunks-send_chunks fuel cs left (ground (arith, enough)) h in
    let nonzero : (length c == 0) ≡ false = ground (arith, some') in
    let bytes : List ℕ = send_chunks cs ++ left in
    let unpacked = unpack-pack (length c) small in
    let assoc = append_assoc c (send_chunks cs) left in
    rw (unpacked, nonzero, assoc, drop-append c bytes, ih)
      (rw (unpacked, assoc, take-append c bytes) refl)
