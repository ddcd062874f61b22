-- ===== src/Engine/Recovery.antt =====
-- After a window's width without a spend, src/engine.rs lets an ordinary transfer pass: no sequence of
-- spends closes the window for good.
use stellar_agent_guard_cont.Common.{
  ℕ, ◌+◌, ◌≤◌, ◌<◌, ℤ, pos, is_pos, ltb_ℤ, i128_max, ◌≡◌, ◌≢◌, refl, ◌⊎◌, true, false, Option, none,
  some, List, [], ◌∷◌, All, all, map, length, is_empty, arith,
}
use stellar_agent_guard_cont.Types.Policy.{Address, RecipientCap, PolicyConfig}
use stellar_agent_guard_cont.Types.Ledger.{SpendEntry}
use stellar_agent_guard_cont.Host.{Host, Context}
use stellar_agent_guard_cont.Window.Single.{SingleLedger, is_expired, prune_entries}
use stellar_agent_guard_cont.Window.Ledger.{
  RecipientLedger, Ledger, global_window, recipient_window, prune_recipient, prune, total_in,
  recipient_total,
}
use stellar_agent_guard_cont.Window.Sums.{IsWindow}
use stellar_agent_guard_cont.Window.Prune.{live_entries, prune_entries-live}
use stellar_agent_guard_cont.Engine.Caps.{
  override_in, recipient_override_cap, effective_per_tx_cap, checked_window_projection,
}
use stellar_agent_guard_cont.Engine.Parse.{asset_transfer, parse_call}
use stellar_agent_guard_cont.Engine.Evaluate.{
  Decision, allowed, blocked, nothing_staged, asset_paused, staged_recip, index_of,
}
use stellar_agent_guard_cont.Engine.Decide.{AccountState, prunes, is_allowed, decide}
use stellar_agent_guard_cont.Engine.Spends.{checked_window_projection-pos}
use stellar_agent_guard_cont.Engine.Permit.{
  Fits, Within, RecipientFits, IsTransferPermitted, IsPermitted,
}
use stellar_agent_guard_cont.Engine.Gates.{IsOpen, judged_ledger, length-decide, decide_iff}
use stellar_agent_guard_cont.Contract.Validate.Spec.{Absent, Listed}

-- Every entry is as old as the window is wide.
abbrev pub AreOld : ℕ → ℕ → List SpendEntry → Type 0
AreOld now window_secs es = All (λ (e : SpendEntry). e.ts + window_secs ≤ now) es

-- A well-formed window in which nothing counts any more.
abbrev pub IsQuietWindow : ℕ → ℕ → SingleLedger → Type 0
IsQuietWindow now window_secs w = IsWindow w × AreOld now window_secs w.entries

-- No spend for the width of the window.
pub record IsQuiet (now window_secs : ℕ) (l : Ledger) : Type 0 where
  pub global : IsQuietWindow now window_secs (global_window l)
  pub recipients :
      All (λ (r : RecipientLedger). IsQuietWindow now window_secs (recipient_window r)) l.recipients

-- A transfer that each rule of the policy lets pass on its own: its amount is within every cap.
pub record IsOrdinary (cfg : PolicyConfig) (asset to : Address) (amount : ℕ) : Type 0 where
  pub unpaused : asset_paused cfg asset ≡ false
  pub positive : 0 < amount
  pub in_range : amount ≤ i128_max
  pub unblocked : Absent to cfg.blocked_recipients
  pub known : (cfg.allow_any_recipient ≡ true) ⊎ Listed to cfg.recipients
  pub per_tx : Within (effective_per_tx_cap cfg asset) (pos amount)
  pub window : is_pos cfg.window_cap ≡ true → ltb_ℤ cfg.window_cap (pos amount) ≡ false
  pub recipient : Within (recipient_override_cap cfg to) (pos amount)

module _ (now window_secs : ℕ) (bounded : window_secs ≢ 0) where
  live_entries-AreOld :
      (es : List SpendEntry) → AreOld now window_secs es → live_entries now window_secs es ≡ []
  live_entries-AreOld [] h = refl
  live_entries-AreOld (e ∷ es) (h, hs) =
      let expired : is_expired now window_secs e ≡ true = ground arith in
      rw expired (live_entries-AreOld es hs)

  prune_entries-AreOld :
      (w : SingleLedger)
      → IsQuietWindow now window_secs w
      → (prune_entries now window_secs w).total ≡ pos 0
  prune_entries-AreOld w (well, old) =
      rw (prune_entries-live now window_secs w well bounded, live_entries-AreOld w.entries old) refl

  total_in-quiet :
      (to : Address) (rs : List RecipientLedger)
      → All (λ (r : RecipientLedger). IsQuietWindow now window_secs (recipient_window r)) rs
      → total_in to (map (prune_recipient now window_secs) rs) ≡ pos 0
  total_in-quiet to [] q = refl
  total_in-quiet to (r ∷ rs) (q, qs) =
      ground (arith, prune_entries-AreOld (recipient_window r) q, total_in-quiet to rs qs)

  prune-IsQuiet :
      (l : Ledger) (to : Address)
      → IsQuiet now window_secs l
      → ((prune now window_secs l).total ≡ pos 0)
        × (recipient_total to (prune now window_secs l) ≡ pos 0)
  unfolding prune recipient_total
  prune-IsQuiet l to q =
      (prune_entries-AreOld (global_window l) q.global, total_in-quiet to l.recipients q.recipients)

-- A first amount within a cap fits on an empty window.
room_alone :
    (ceiling : ℤ) (amount : ℕ)
    → amount ≤ i128_max
    → ltb_ℤ ceiling (pos amount) ≡ false
    → Fits ceiling (checked_window_projection (pos 0) (pos 0) (pos amount))
room_alone ceiling amount in_range h =
    (pos amount, ground (arith, checked_window_projection-pos 0 0 amount), h)

-- A recipient has a cap of its own only under a policy that prunes.
override_in-nonempty :
    (rcs : List RecipientCap) (to : Address) (c : ℤ)
    → override_in rcs to ≡ some c
    → is_empty rcs ≡ false
unfolding override_in
override_in-nonempty [] to c h = cc h
override_in-nonempty (rc ∷ rcs) to c h = refl

module _ (cfg : PolicyConfig) (now : ℕ) (l : Ledger) (bounded : cfg.window_secs ≢ 0)
    (quiet : IsQuiet now cfg.window_secs l) (h : Host) (self_addr : Address) where
  global_room :
      (amount : ℕ)
      → amount ≤ i128_max
      → (is_pos cfg.window_cap ≡ true → ltb_ℤ cfg.window_cap (pos amount) ≡ false)
      → is_pos cfg.window_cap ≡ true
      → Fits cfg.window_cap (
          checked_window_projection
            (judged_ledger h self_addr cfg now l).total
            (pos 0)
            (pos amount))
  global_room amount in_range under on =
      let pruning : prunes cfg ≡ true = ground arith in
      let nothing = (prune-IsQuiet now cfg.window_secs bounded l 0 quiet).0 in
      rw (pruning, nothing) (room_alone cfg.window_cap amount in_range (under on))

  -- The recipient's own window, with what a first transfer has staged for it.
  recipient_room :
      (to : Address) (amount : ℕ) (o : Option ℤ)
      → recipient_override_cap cfg to ≡ o
      → amount ≤ i128_max
      → Within o (pos amount)
      → RecipientFits o (
          checked_window_projection
            (recipient_total to (judged_ledger h self_addr cfg now l))
            (staged_recip o to nothing_staged)
            (pos amount))
  unfolding recipient_override_cap index_of
  recipient_room to amount none own in_range under = tt
  recipient_room to amount (some c) own in_range under =
      let capped = override_in-nonempty cfg.recipient_window_caps to c own in
      let pruning : prunes cfg ≡ true = ground arith in
      let nothing = (prune-IsQuiet now cfg.window_secs bounded l to quiet).1 in
      rw (pruning, nothing) (room_alone c amount in_range under)

  ordinary-IsPermitted :
      (asset to : Address) (amount : ℕ)
      → IsOrdinary cfg asset to amount
      → IsTransferPermitted cfg
          (judged_ledger h self_addr cfg now l)
          asset
          to
          (pos amount)
          nothing_staged
  ordinary-IsPermitted asset to amount o = record {
    unpaused = o.unpaused;
    positive = o.positive;
    unblocked = o.unblocked;
    known = o.known;
    per_tx = o.per_tx;
    window = global_room amount o.in_range o.window;
    recipient_window =
        recipient_room to amount (recipient_override_cap cfg to) refl o.in_range o.recipient;
  }

  only_allowed : (ds : List Decision) → length ds ≡ 1 → all is_allowed ds ≡ true → ds ≡ allowed ∷ []
  only_allowed [] n a = cc n
  only_allowed (allowed ∷ []) n a = refl
  only_allowed (blocked e ∷ []) n a = cc a
  only_allowed (d ∷ d' ∷ ds) n a = absurd (omega (arith, n))

  -- The window opens again: once the last spend is as old as the window is wide, an account that is not
  -- frozen and whose gates are open lets a transfer pass whose amount is within every cap and which the
  -- rules on assets and recipients permit.
  pub decide-Reopens :
      (state : AccountState) (ctx : Context h.Val) (asset to : Address) (amount : ℕ)
      → state.admin_frozen ≡ false
      → IsOpen cfg state now
      → parse_call h self_addr ctx cfg ≡ asset_transfer asset to (pos amount)
      → IsOrdinary cfg asset to amount
      → (decide h self_addr (some cfg) state l now (ctx ∷ [])).0 ≡ allowed ∷ []
  decide-Reopens state ctx asset to amount unfrozen gates parsed ordinary =
      let permitted : IsPermitted cfg (judged_ledger h self_addr cfg now l)
          (parse_call h self_addr ctx cfg) nothing_staged =
        rw parsed (ordinary-IsPermitted asset to amount ordinary) in
      only_allowed (decide h self_addr (some cfg) state l now (ctx ∷ [])).0
        (length-decide h self_addr (some cfg) state l now (ctx ∷ []))
        ((decide_iff h self_addr (some cfg) state l now ctx []).1 (record {
          few = omega arith;
          unfrozen = unfrozen;
          cfg = cfg;
          installed = refl;
          open_gates = gates;
          permitted = (permitted, tt);
        }))
