-- ===== src/Storage/Scanning.antt =====
-- backend/app/core/scanning.py: the scan of a stored object by the ClamAV daemon, which is a
-- parameter: what it takes and what it answers.
use chatterbox.Prelude.{
  ℕ, ◌-◌, Bool, true, false, ◌&&◌, Option, none, some, List, [], ◌∷◌, ◌++◌, reverse, length, take,
  any, codes, starts_with, leb, ◌==◌, if◌then◌else◌,
}
use chatterbox.Errors.{
  app_error, os_error, failure, Result, ok, raised, attachment_scan_unavailable,
  attachment_infected,
}
use chatterbox.Models.{Text}
use chatterbox.Storage
use chatterbox.Storage.{Minio, Stream}
use chatterbox.Storage.Framing.{pack}

-- What `recv` finds: bytes that arrived together, or an OSError such as a timeout. After the last the
-- connection is closed, as it is by no bytes.
pub data Part : Type 0 where
  bytes : Text → Part
  failed : Part

-- `takes` tells whether what was sent so far could be sent, and `answer` what comes back. `decode` is
-- decode("utf-8", errors="replace").
pub record Daemon : Type 0 where
  pub connects : Bool
  pub takes : List ℕ → Bool
  pub answer : List ℕ → List Part
  pub decode : List ℕ → Text

-- The bytes of a text with NUL (0) at its end left out.
unfoldable pub rstrip_nul : Text → Text
rstrip_nul [] = []
rstrip_nul (c ∷ cs) =
    let rest = rstrip_nul cs in if c == 0 && leb (length rest) 0 then [] else c ∷ rest

-- The loop that reads the reply: up to 4096 bytes, to the end of the connection or to a part with NUL.
unfoldable pub receive : Text → List Part → Result Text
receive result [] = ok result
receive result (failed ∷ parts) = if leb 4096 (length result) then ok result else raised os_error
receive result (bytes part ∷ parts) =
    let got = take (4096 - length result) part in
    let more = receive (result ++ got) parts in
    if leb 4096 (length result)
    then ok result
    else if leb (length got) 0
    then ok result
    else if any (λ c. c == 0) got
    then ok (result ++ got)
    else more

abbrev pub replied : (List ℕ → Text) → Result Text → Result Text
replied decode (raised e) = raised e
replied decode (ok t) = ok (decode (rstrip_nul t))

module _ (daemon : Daemon) where
  open daemon use {connects, takes, answer, decode}

  -- the reply to what was sent
  abbrev pub reply_to : List ℕ → Result Text
  reply_to sent = if takes sent then replied decode (receive [] (answer sent)) else raised os_error

  -- The loop over the chunks of the object, and the empty chunk that ends them.
  unfoldable pub stream_chunks : List ℕ → List Text → Bool → Result Text
  unfolding receive rstrip_nul
  stream_chunks sent [] true = raised failure
  stream_chunks sent [] false = reply_to (sent ++ pack 0)
  stream_chunks sent (chunk ∷ chunks) breaks =
      let sent' = sent ++ (pack (length chunk) ++ chunk) in
      let more = stream_chunks sent' chunks breaks in if takes sent' then more else raised os_error

  -- `_scan_response`
  unfoldable pub scan_response : Stream → Result Text
  unfolding stream_chunks
  scan_response response =
      let sent = codes "zINSTREAM" ++ (0 ∷ []) in
      let more = stream_chunks sent response.chunks response.breaks in
      if connects && takes sent then more else raised os_error

-- `result.endswith(suffix)`
abbrev pub ends_with : Text → Text → Bool
ends_with suffix text = starts_with (reverse suffix) (reverse text)

-- The labels under which ATTACHMENT_SCANS_TOTAL counts a scan.
pub data Outcome : Type 0 where
  skipped unavailable infected error clean : Outcome

-- `ClamAVAttachmentScanner.scan`, on what `_scan_response` returned or raised, with what is counted.
unfoldable pub judge : Result Text → Result (Unit {0}) × Option Outcome
judge (raised os_error) = (raised (app_error attachment_scan_unavailable), some unavailable)
judge (raised e) = (raised e, none)
judge (ok result) =
    if ends_with (codes "FOUND") result
    then (raised (app_error attachment_infected), some infected)
    else if ends_with (codes "OK") result
    then (ok tt, some clean)
    else (raised (app_error attachment_scan_unavailable), some error)

-- The scanner that the configuration chose.
pub data Scanner : Type 0 where
  disabled : Scanner
  clamav : Daemon → Scanner

module _ (minio : Minio) where
  open minio use {Bucket}

  abbrev pub judged : Daemon → Result Stream → Result (Unit {0}) × Option Outcome
  judged daemon (raised e) = (raised e, none)
  judged daemon (ok response) = judge (scan_response daemon response)

  unfoldable pub counted_scan : Scanner → Bucket → Text → Result (Unit {0}) × Option Outcome
  unfolding judge scan_response
  counted_scan disabled b storage_key = (ok tt, some skipped)
  counted_scan (clamav daemon) b storage_key = judged daemon (Storage.get minio b storage_key)

  unfoldable pub scan : Scanner → Bucket → Text → Result (Unit {0})
  unfolding counted_scan
  scan scanner b storage_key = (counted_scan scanner b storage_key).0
