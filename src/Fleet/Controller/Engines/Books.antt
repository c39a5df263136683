-- ===== src/Fleet/Controller/Engines/Books.antt =====
-- `_poll_engines` counts every downloaded byte in the ledger and in the fleet's rate total alike.
use steam_download_pumper.Common.{
  ℕ, ◌+◌, ◌-◌, ◌≡◌, refl, false, or_else, List, [], ◌∷◌, arith, sum_of, ◌==◌, Bool-cases, inl, inr,
  ap, ◌∙◌,
}
use steam_download_pumper.Common.Text.{Text}
use steam_download_pumper.Common.Dict.{Dict, insert}
use steam_download_pumper.Fleet.Clock.{minute_of}
use steam_download_pumper.Fleet.Floats.{FloatArith}
use steam_download_pumper.Fleet.Config.{FleetConfig}
use steam_download_pumper.Fleet.Store.Rows.{
  download, Amounts, Quality, Traffic, Store, add_traffic, download_only, record_download,
  record_runtime,
}
use steam_download_pumper.Fleet.Controller.State.{
  Engine, ActiveLine, Controller, stop_line, quarantine,
}
use steam_download_pumper.Fleet.Controller.Engines.{
  Polling, polled_line, settle, poll_line, poll_lines, poll_engines,
}

-- The bytes that the program itself has downloaded, over all accounts and minutes.
unfoldable pub program_bytes : List Traffic → ℕ
program_bytes rows = sum_of (λ r. r.amounts download) rows

program_bytes-add_traffic :
    (id : Text) (m : ℕ) (v : Amounts) (q : Quality) (rows : List Traffic)
    → program_bytes (add_traffic id m v q rows) ≡ program_bytes rows + v download
unfolding program_bytes add_traffic
program_bytes-add_traffic id m v q [] = omega arith
program_bytes-add_traffic id m v q (r ∷ rows) =
    ground (arith, program_bytes-add_traffic id m v q rows)

program_bytes-record_download :
    (id : Text) (amount at_time : ℕ) (s : Store)
    → program_bytes (record_download id amount at_time s).traffic ≡ program_bytes s.traffic + amount
unfolding record_download download_only
program_bytes-record_download id amount at_time s = elim (Bool-cases (amount == 0)) [
  | inl nothing ↦ rw nothing (ground arith)
  | inr some_bytes ↦ rw some_bytes (
      program_bytes-add_traffic id (minute_of at_time) (download_only amount) Quality.fine
        s.traffic)
]

record_runtime_traffic :
    (id : Text) (start end : ℕ) (s : Store) → (record_runtime id start end s).traffic ≡ s.traffic
unfolding record_runtime
record_runtime_traffic id start end s = ground arith

module _ (float : FloatArith) (cfg : FleetConfig) (poll : Text → ActiveLine → Engine) where
  settle_books :
      (id : Text) (now : ℕ) (line : ActiveLine) (p : Polling)
      → let q = settle float cfg poll id now line p in
        (q.controller.store ≡ p.controller.store)
        × (q.controller.rate_total ≡ p.controller.rate_total)
        × (q.aggregate_delta ≡ p.aggregate_delta)
  unfolding settle stop_line quarantine
  settle_books id now line p = ground arith

  -- One round adds the same bytes to the ledger and to the aggregate.
  poll_line_books :
      (now : ℕ) (entry : Text × ActiveLine) (p : Polling)
      → let q = poll_line float cfg poll now entry p in
        (program_bytes q.controller.store.traffic + p.aggregate_delta
          ≡ program_bytes p.controller.store.traffic + q.aggregate_delta)
        × (q.controller.rate_total ≡ p.controller.rate_total)
  unfolding poll_line
  poll_line_books now (id, line) p =
      let engine = poll id line in
      let delta = engine.total_bytes - line.last_bytes in
      let start = or_else line.last_accounted_at line.started_at in
      let accounted = record_runtime id start now p.controller.store in
      let before : Polling = record p {
        controller = record (p.controller) {
          store = record_download id delta now accounted;
          active = insert id (polled_line engine now line) p.controller.active;
        };
        aggregate_delta = p.aggregate_delta + delta;
      } in
      let (store, total, aggregate) = settle_books id now (polled_line engine now line) before in
      (
        omega (
          arith,
          ap (λ (s : Store). program_bytes s.traffic) store,
          aggregate,
          program_bytes-record_download id delta now accounted,
          ap program_bytes (record_runtime_traffic id start now p.controller.store),
        ),
        total,
      )

  poll_lines_books :
      (now : ℕ) (lines : Dict ActiveLine) (p : Polling)
      → let q = poll_lines float cfg poll now lines p in
        (program_bytes q.controller.store.traffic + p.aggregate_delta
          ≡ program_bytes p.controller.store.traffic + q.aggregate_delta)
        × (q.controller.rate_total ≡ p.controller.rate_total)
  unfolding poll_lines
  poll_lines_books now [] p = (refl, refl)
  poll_lines_books now (entry ∷ rest) p =
      let next = poll_line float cfg poll now entry p in
      let (booked, total) = poll_line_books now entry p in
      let (booked', total') = poll_lines_books now rest next in
      (omega (arith, booked, booked'), total' ∙ total)

  -- Whatever the engines report, the bytes that `_poll_engines` adds to the program's downloads in
  -- the ledger are exactly those by which the fleet's rate total grows.
  pub poll_engines_books :
      (now : ℕ) (s : Controller)
      → let after = (poll_engines float cfg poll now s).0 in
        program_bytes after.store.traffic + s.rate_total
        ≡ program_bytes s.store.traffic + after.rate_total
  unfolding poll_engines
  poll_engines_books now s =
      let fresh : Polling = record {
        controller = s;
        aggregate_delta = 0;
        replacement_needed = false;
      } in
      let (booked, total) = poll_lines_books now s.active fresh in omega (arith, booked, total)
