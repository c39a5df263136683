-- ===== src/Remote/Envelope/Accepted.antt =====
-- What an envelope that `_verify_envelope` of steam_pumper/remote_sources.py accepts satisfies.
use steam_download_pumper.Common.{ℕ, ◌≡◌, Bool, false, ltb, length}
use steam_download_pumper.Common.Text.{Text}
use steam_download_pumper.Common.Result.{
  ok, raise_if, >>=-eq-ok, >>-eq-ok, >>-eq-ok_first, ok-injective,
}
use steam_download_pumper.Remote.Envelope.{
  RemoteSourceSettings, interrupted, failed, envelope_too_large, Process, ran, timed_out, cancelled,
  not_started, Signing, run_of, check_fields, verify_envelope,
}

run_of-eq-ok :
    (process : Process) (verdict : ℕ × Text) {last : ℕ × Text}
    → run_of process verdict ≡ ok last
    → verdict ≡ last
run_of-eq-ok ran verdict h = ok-injective h
run_of-eq-ok timed_out verdict h = cc
run_of-eq-ok cancelled verdict h = cc
run_of-eq-ok not_started verdict h = cc

module _ (signing : Signing) (settings : RemoteSourceSettings) where
  -- An accepted envelope is accepted whenever nothing cancels it and the verifier runs to its end.
  pub verify_envelope-again :
      (is_cancelled : Bool) (process : Process) (bytes : Text) {payload : Text}
      → verify_envelope signing settings is_cancelled process bytes ≡ ok payload
      → verify_envelope signing settings false ran bytes ≡ ok payload
  unfolding verify_envelope
  verify_envelope-again is_cancelled process bytes h =
      let h1 = >>-eq-ok (raise_if is_cancelled interrupted) _ h in
      let size = raise_if (ltb settings.max_bytes (length bytes)) (failed envelope_too_large) in
      let h2 = >>-eq-ok size _ h1 in
      let (expected, checked, h3) =
        >>=-eq-ok (check_fields signing settings (signing.load bytes)) _ h2 in
      let (verdict, found, h4) = >>=-eq-ok (run_of process (signing.verifier bytes)) _ h3 in
      rw (>>-eq-ok_first size _ h1, checked, run_of-eq-ok process (signing.verifier bytes) found) h4
