-- ===== src/Daemon/Backoff.antt =====
-- The back-off of the loop.
use Prim.Native.Nat.{◌^◌}
use native.Mathlib.Nat.{pow-suc, add-zero}
use sourceos_syncd.Prelude.{
  ℕ, zero, suc, ◌+◌, ◌*◌, ◌≤◌, min, ◌≡◌, refl, ◌⊎◌, inl, inr, Bool, true, false, none, List, [],
  ◌∷◌, arith, length, All, Bool-cases, ap, ◌∙◌,
}
use sourceos_syncd.Receipts.{ReceiptStore}
use sourceos_syncd.Daemon.{
  Config, World, SyncDaemon, poll_reply, poll_once, next_backoff, sleep_s, round, run,
}

-- No back-off, or one between the least and the greatest.
abbrev pub IsBackoff : ℕ → Type 0
IsBackoff b = (b ≡ 0) ⊎ ((30 ≤ b) × (b ≤ 1800))

next_backoff-IsBackoff : (returns : Bool) (b : ℕ) → IsBackoff b → IsBackoff (next_backoff returns b)
unfolding next_backoff
next_backoff-IsBackoff true b h = inl refl
next_backoff-IsBackoff false b h = inr (ground arith, ground arith)

-- Whatever the polls meet, the back-off is 0 or lies between 30 and 1800 seconds.
pub run-IsBackoff :
    (cfg : Config) (ws : List World) (d : SyncDaemon)
    → IsBackoff d.backoff_s
    → IsBackoff (run cfg ws d).backoff_s
unfolding run round
run-IsBackoff cfg [] d h = h
run-IsBackoff cfg (w ∷ ws) d h = elim (Bool-cases d.running) [
  | inl e ↦ run-IsBackoff cfg ws _ (rw e (next_backoff-IsBackoff _ d.backoff_s h))
  | inr e ↦ run-IsBackoff cfg ws _ (rw e h)
]

-- The back-off behind n polls that failed in a row.
pub doubled : ℕ → ℕ
doubled zero = 0
doubled (suc n) = min 1800 (30 * 2 ^ n)

pow_pos : (n : ℕ) → 1 ≤ 2 ^ n
pow_pos zero = omega arith
pow_pos (suc n) = rw pow-suc (omega (arith, pow_pos n))

next_backoff-doubled : (n : ℕ) → next_backoff false (doubled n) ≡ doubled (suc n)
unfolding next_backoff doubled
next_backoff-doubled zero = refl
next_backoff-doubled (suc n) = rw pow-suc (ground (arith, pow_pos n))

-- Katello is out of reach and no signal arrives.
pub record IsOutage (w : World) : Type 0 where
  pub unreachable : w.katello ≡ none
  pub undisturbed : w.signalled ≡ false

poll_once-outage :
    (cfg : Config) (w : World) (r : ReceiptStore)
    → IsOutage w
    → poll_once cfg w r ≡ record { store = r; returns = false; ran = [] }
unfolding poll_once
poll_once-outage cfg w r out = ap (poll_reply cfg w r) out.unreachable

round-outage :
    (cfg : Config) (w : World) (r : ReceiptStore) (n : ℕ)
    → IsOutage w
    → round cfg w (record { store = r; running = true; backoff_s = doubled n })
      ≡ record { store = r; running = true; backoff_s = doubled (suc n) }
unfolding round
round-outage cfg w r n out =
    simp (poll_once-outage cfg w r out, out.undisturbed, next_backoff-doubled n)

run-outage_from :
    (cfg : Config) (ws : List World) (r : ReceiptStore) (n : ℕ)
    → All IsOutage ws
    → run cfg ws (record { store = r; running = true; backoff_s = doubled n })
      ≡ record { store = r; running = true; backoff_s = doubled (n + length ws) }
unfolding run
run-outage_from cfg [] r n _ = rw add-zero
run-outage_from cfg (w ∷ ws) r n (out, outs) =
    ap (run cfg ws) (round-outage cfg w r n out)
    ∙ run-outage_from cfg ws r (suc n) outs
    ∙ ap (λ k. record { store = r; running = true; backoff_s = doubled k }) (omega arith)

sleep_s-doubled :
    (cfg : Config) (r : ReceiptStore) (n : ℕ)
    → sleep_s cfg (record { store = r; running = true; backoff_s = doubled (suc n) })
      ≡ min 1800 (30 * 2 ^ n)
unfolding sleep_s doubled
sleep_s-doubled cfg r n = ground (arith, pow_pos n)

-- Behind k polls in a row that do not reach Katello, k at least 1, a running daemon that had no back-off
-- before them has the store as it was, goes on, and waits the least of 1800 and 30 * 2 ^ (k - 1)
-- seconds, if no signal arrives.
pub run-outage :
    (cfg : Config) (w : World) (ws : List World) (r : ReceiptStore)
    → IsOutage w
    → All IsOutage ws
    → let d = run cfg (w ∷ ws) (record { store = r; running = true; backoff_s = 0 }) in
      (d.store ≡ r) × (d.running ≡ true) × (sleep_s cfg d ≡ min 1800 (30 * 2 ^ length ws))
unfolding doubled
run-outage cfg w ws r out outs =
    let at : ℕ → SyncDaemon = λ k. record { store = r; running = true; backoff_s = doubled k } in
    let e : run cfg (w ∷ ws) (at 0) ≡ at (suc (length ws)) =
      run-outage_from cfg (w ∷ ws) r 0 (out, outs) ∙ ap at {y = suc (length ws)} (omega arith) in
    (
      ap (λ d. d.store) e,
      ap (λ d. d.running) e,
      ap (sleep_s cfg) e ∙ sleep_s-doubled cfg r (length ws),
    )
