-- ===== src/Storage/Clamd.antt =====
-- A scan against a daemon that keeps to the INSTREAM protocol: it reads the chunks as
-- `Framing.read_chunks` does, and replies with a verdict on what it read and NUL.
use mathlib.Core.List.{append_assoc, append-nil}
use mathlib.Core.Path.{subst}
use chatterbox.Prelude.{
  ℕ, suc, ◌+◌, ◌-◌, ◌<◌, ◌≤◌, Bool, true, false, Option, some, List, [], ◌∷◌, ◌++◌, map, length,
  any, All, codes, leb, ◌==◌, ◌≡◌, ◌⊎◌, ◌↔◌, inl, inr, refl, sym, ap, ◌∙◌, arith,
}
use chatterbox.Prelude.Every.{any-append_eq}
use chatterbox.Prelude.Prefixes.{take_all}
use chatterbox.Errors.{Result, ok}
use chatterbox.Models.{Text}
use chatterbox.Storage
use chatterbox.Storage.{Minio, Stream}
use chatterbox.Storage.Framing.{pack, send_chunks, read_chunks, concat, read_chunks-send_chunks}
use chatterbox.Storage.Scanning.{
  bytes, Daemon, rstrip_nul, receive, reply_to, stream_chunks, scan_response, ends_with, judge,
  clamav, counted_scan, judged, scan, Outcome, clean,
}

abbrev is_nul : ℕ → Bool
is_nul c = c == 0

-- where a text that ends with its only NUL is cut
cut :
    (p q r : Text)
    → p ++ q ≡ r ++ 0 ∷ []
    → any is_nul r ≡ false
    → ((any is_nul p ≡ true) × (q ≡ []) × (p ≡ r ++ 0 ∷ []))
      ⊎ ((any is_nul p ≡ false) × ((r' : Text) × (r ≡ p ++ r') × (q ≡ r' ++ 0 ∷ [])))
cut [] q r e h = inr (refl, (r, refl, e))
cut (x ∷ []) q [] e h = inl (ground arith, ground arith, ground arith)
cut (x ∷ y ∷ p) q [] e h = absurd (ground arith)
cut (x ∷ p) q (y ∷ r) e h = elim (cut p q r (ground arith) (ground arith)) [
  | inl (n, f, g) ↦ inl (ground arith, f, ground arith)
  | inr (n, (r', f, g)) ↦ inr (ground arith, (r', ground arith, g))
]

length-append : (xs ys : Text) → length (xs ++ ys) ≡ length xs + length ys
length-append [] ys = omega arith
length-append (x ∷ xs) ys = omega (arith, length-append xs ys)

regroup : (acc p r' r : Text) → r ≡ p ++ r' → (acc ++ p) ++ (r' ++ 0 ∷ []) ≡ acc ++ (r ++ 0 ∷ [])
regroup acc p r' r f =
    append_assoc acc p (r' ++ 0 ∷ [])
    ∙ ap (λ (x : Text). acc ++ x)
        (sym (append_assoc p r' (0 ∷ [])) ∙ ap (λ (x : Text). x ++ 0 ∷ []) (sym f))

-- A reply that ends with its only NUL is read whole, however it is cut into parts.
receive_reply :
    (acc r : Text) (ps : List Text)
    → concat ps ≡ r ++ 0 ∷ []
    → any is_nul r ≡ false
    → All (λ p. 0 < length p) ps
    → length acc + length r < 4096
    → receive acc (map bytes ps) ≡ ok (acc ++ (r ++ 0 ∷ []))
unfolding receive
receive_reply acc r [] e h full short =
    absurd (omega (arith, ap length e, length-append r (0 ∷ [])))
receive_reply acc r (p ∷ ps) e h full short =
    let within : length p ≤ 4096 - length acc =
      omega (arith, ap length e, length-append p (concat ps), length-append r (0 ∷ []), short) in
    let whole = take_all (4096 - length acc) p within in
    let room : leb 4096 (length acc) ≡ false = ground (arith, short) in
    let some' : leb (length p) 0 ≡ false = ground (arith, full.0) in
    elim (cut p (concat ps) r e h) [
      | inl (n, f, g) ↦ rw (whole, room, some', n) (ap (λ (x : Text). ok (acc ++ x)) g)
      | inr (n, (r', f, g)) ↦
          rw (whole, room, some', n)
            (receive_reply (acc ++ p) r' ps g
                (ground (arith, h, ap (any is_nul) f, any-append_eq is_nul p r')) full.1
                (omega (arith, length-append acc p, length-append p r', ap length f, short))
              ∙ ap (λ (x : Text). ok x) (regroup acc p r' r f))
    ]

rstrip_nul_reply : (r : Text) → any is_nul r ≡ false → rstrip_nul (r ++ 0 ∷ []) ≡ r
unfolding rstrip_nul
rstrip_nul_reply [] h = refl
rstrip_nul_reply (x ∷ r) h = ground (arith, rstrip_nul_reply r)

judge_iff :
    (t : Text)
    → (((judge (ok t)).0 ≡ ok tt) ↔ (ends_with (codes "OK") t ≡ true))
      × (((judge (ok t)).1 ≡ some clean) ↔ (ends_with (codes "OK") t ≡ true))
unfolding judge
judge_iff t = ground arith

module _ (d : Daemon) (verdict : Text → Text) where
  open d use {connects, takes, answer, decode}

  -- The daemon takes whatever it is sent, and to a stream of chunks it replies, in parts, with its
  -- verdict on the content and NUL; a verdict is a short text in ASCII, without NUL.
  pub record Conforms : Type 0 where
    pub reachable : connects ≡ true
    pub accepts : (sent : List ℕ) → takes sent ≡ true
    pub answers :
        (fuel : ℕ) (sent : List ℕ) (content : Text) (left : List ℕ)
        → read_chunks fuel sent ≡ some (content, left)
        → (parts : List Text) × (answer (codes "zINSTREAM" ++ (0 ∷ sent)) ≡ map bytes parts)
          × (concat parts ≡ verdict content ++ 0 ∷ [])
          × All (λ p. 0 < length p) parts
    pub short : (content : Text) → length (verdict content) < 4096
    pub without_nul : (content : Text) → any is_nul (verdict content) ≡ false
    pub decoded : (content : Text) → decode (verdict content) ≡ verdict content

  stream_chunks-send_chunks :
      (sent : List ℕ) (chunks : List Text)
      → ((s : List ℕ) → takes s ≡ true)
      → stream_chunks d sent chunks false ≡ reply_to d (sent ++ send_chunks chunks)
  unfolding stream_chunks send_chunks
  stream_chunks-send_chunks sent [] all = refl
  stream_chunks-send_chunks sent (c ∷ cs) all = rw (all (sent ++ (pack (length c) ++ c))) (
      stream_chunks-send_chunks (sent ++ (pack (length c) ++ c)) cs all
      ∙ ap (reply_to d) (
          append_assoc sent (pack (length c) ++ c) (send_chunks cs)
          ∙ ap (λ (x : List ℕ). sent ++ x) (append_assoc (pack (length c)) c (send_chunks cs))))

  scan_response_verdict :
      (chunks : List Text)
      → Conforms
      → All (λ c. (0 < length c) × (length c < 4_294_967_296)) chunks
      → scan_response d (record { chunks = chunks; breaks = false }) ≡ ok (verdict (concat chunks))
  unfolding scan_response
  scan_response_verdict chunks conforms h =
      let sent : List ℕ = send_chunks chunks in
      let read : read_chunks (suc (length chunks)) sent ≡ some (concat chunks, []) =
        rw (← append-nil sent)
          (read_chunks-send_chunks (suc (length chunks)) chunks [] (omega arith) h) in
      let (parts, answered, whole, full) =
        conforms.answers (suc (length chunks)) sent (concat chunks) [] read in
      let content : Text = concat chunks in
      let received : receive [] (map bytes parts) ≡ ok (verdict content ++ 0 ∷ []) =
        receive_reply [] (verdict content) parts whole (conforms.without_nul content) full
          (omega (arith, conforms.short content)) in
      rw
        (
          conforms.reachable,
          conforms.accepts (codes "zINSTREAM" ++ (0 ∷ [])),
          stream_chunks-send_chunks (codes "zINSTREAM" ++ (0 ∷ [])) chunks conforms.accepts,
          conforms.accepts (codes "zINSTREAM" ++ (0 ∷ sent)),
          answered,
          received,
          rstrip_nul_reply (verdict content) (conforms.without_nul content),
          conforms.decoded content,
        )
        refl

  -- With a daemon that keeps to the protocol, and if the object can be read in chunks that are
  -- neither empty nor of 2 ^ 32 bytes or more, a scan passes exactly if the verdict on the content,
  -- the chunks in order, ends with OK; and exactly then it is counted as clean.
  pub scan_passes_iff :
      (minio : Minio) (b : minio.Bucket) (storage_key : Text) (chunks : List Text)
      → Conforms
      → All (λ c. (0 < length c) × (length c < 4_294_967_296)) chunks
      → Storage.get minio b storage_key ≡ ok (record { chunks = chunks; breaks = false })
      → ((scan minio (clamav d) b storage_key ≡ ok tt)
          ↔ (ends_with (codes "OK") (verdict (concat chunks)) ≡ true))
        × (((counted_scan minio (clamav d) b storage_key).1 ≡ some clean)
            ↔ (ends_with (codes "OK") (verdict (concat chunks)) ≡ true))
  unfolding scan
  scan_passes_iff minio b storage_key chunks conforms h found =
      let same : counted_scan minio (clamav d) b storage_key
          ≡ judge (ok (verdict (concat chunks))) =
        unfold counted_scan in
        (ap (judged minio d) found ∙ ap judge (scan_response_verdict chunks conforms h)) in
      let passes : Type 0 = ends_with (codes "OK") (verdict (concat chunks)) ≡ true in
      subst
        (λ (x : Result (Unit {0}) × Option Outcome).
          ((x.0 ≡ ok tt) ↔ passes) × ((x.1 ≡ some clean) ↔ passes))
        (sym same) (judge_iff (verdict (concat chunks)))
