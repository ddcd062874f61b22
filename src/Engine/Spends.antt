-- ===== src/Engine/Spends.antt =====
-- What `decide` stages for the global window: spends of this second, under the cap together with the
-- window's total.
use stellar_agent_guard_cont.Common.{
  ℕ, ◌+◌, ◌≤◌, ◌<◌, ℤ, pos, negsuc, pos_part, is_pos, i128_max, saturating_add-pos, checked_add-pos,
  leb_ℤ, ◌≡◌, ◌⊎◌, inl, inr, refl, Bool, true, false, ◌&&◌, Option, none, some, List, [], ◌∷◌, All,
  All-append, Bool-cases, Option-cases, arith, leb, if◌then◌else◌,
}
use stellar_agent_guard_cont.Types.Policy.{Address, Symbol, PolicyConfig}
use stellar_agent_guard_cont.Types.Ledger.{SpendEntry}
use stellar_agent_guard_cont.Host.{Host, Context}
use stellar_agent_guard_cont.Window.Ledger.{Ledger}
use stellar_agent_guard_cont.Window.Sums.{IsPositive, sum_amounts, sum_amounts-append}
use stellar_agent_guard_cont.Engine.Caps.{recipient_override_cap, checked_window_projection}
use stellar_agent_guard_cont.Engine.Parse.{
  ParsedCall, asset_transfer, asset_other, protocol, self_call, create_contract, unknown,
  parse_call,
}
use stellar_agent_guard_cont.Engine.Evaluate.{
  Staged, nothing_staged, exceeds, stage_global, stage_recipient, evaluate_window,
  evaluate_transfer, evaluate_protocol, evaluate, staged_idx, global_over, recip_over,
}
use stellar_agent_guard_cont.Engine.Decide.{judge, is_allowed}

-- On numbers from 0 up the projection is the sum, if that is an `i128`.
pub checked_window_projection-pos :
    (base staged amount : ℕ)
    → checked_window_projection (pos base) (pos staged) (pos amount) ≡ (
        if leb (base + staged + amount) i128_max then some (pos (base + staged + amount)) else none)
unfolding checked_window_projection
checked_window_projection-pos base staged amount =
    ground (arith, checked_add-pos base staged, checked_add-pos (base + staged) amount)

-- A transfer that the cap test lets pass fits under the cap.
pub projection_fits :
    (cap : ℤ) (base staged amount : ℕ)
    → exceeds cap (checked_window_projection (pos base) (pos staged) (pos amount)) ≡ false
    → (base + staged + amount ≤ pos_part cap) × (base + staged + amount ≤ i128_max)
projection_fits cap base staged amount h =
    ground (arith, checked_window_projection-pos base staged amount)

module _ (cfg : PolicyConfig) (ledger : Ledger) (now total : ℕ) where
  pub record IsStaged (st : Staged) : Type 0 where
    pub pending_exact : st.pending ≡ pos (sum_amounts st.admission)
    pub fresh : All (λ (e : SpendEntry). (e.ts ≡ now) × IsPositive e) st.admission
    pub fits :
        (st.admission ≡ [])
        ⊎ ((total + sum_amounts st.admission ≤ pos_part cfg.window_cap)
            × (total + sum_amounts st.admission ≤ i128_max))

  module _ (total_exact : ledger.total ≡ pos total) where
    stage_global-IsStaged :
        (st : Staged) (a : ℕ)
        → IsStaged st
        → 0 < a
        → (is_pos cfg.window_cap
            && exceeds cfg.window_cap (checked_window_projection ledger.total st.pending (pos a)))
          ≡ false
        → IsStaged (stage_global cfg now (pos a) st)
    stage_global-IsStaged st a s p h = elim (Bool-cases (is_pos cfg.window_cap)) [
      | inr disabled ↦ rw disabled s
      | inl on ↦
          let spent = sum_amounts st.admission in
          let one : List SpendEntry = record { ts = now; amount = pos a } ∷ [] in
          let sums = sum_amounts-append st.admission one in
          let under : exceeds cfg.window_cap
                (checked_window_projection (pos total) (pos spent) (pos a))
              ≡ false =
            rw (on, total_exact, s.pending_exact) at h in
          let fit = projection_fits cfg.window_cap total spent a under in
          rw on (record {
            pending_exact = rw (s.pending_exact, saturating_add-pos spent a) (ground (arith, sums));
            fresh =
                All-append (λ (e : SpendEntry). (e.ts ≡ now) × IsPositive e) st.admission one
                  s.fresh ((refl, ground arith), tt);
            fits = inr (omega (arith, sums), omega (arith, sums));
          })
    ]

    stage_recipient-IsStaged :
        (recip_cap : Option ℤ) (to : Address) (amount : ℤ) (st : Staged)
        → IsStaged st
        → IsStaged (stage_recipient recip_cap to amount st)
    stage_recipient-IsStaged none to amount st s = s
    stage_recipient-IsStaged (some cap) to amount st s =
        elim (Option-cases (staged_idx (some cap) to st)) [
          | inl first ↦
              rw first (record { pending_exact = s.pending_exact; fresh = s.fresh; fits = s.fits })
          | inr (i, again) ↦
              rw again (record { pending_exact = s.pending_exact; fresh = s.fresh; fits = s.fits })
        ]

    evaluate_window-IsStaged :
        (to : Address) (amount : ℤ) (st : Staged)
        → IsStaged st
        → leb_ℤ amount (pos 0) ≡ false
        → IsStaged (evaluate_window cfg ledger now to amount st).1
    unfolding evaluate_window
    evaluate_window-IsStaged to (negsuc a) st s p = absurd (ground arith)
    evaluate_window-IsStaged to (pos a) st s p =
        let recip_cap = recipient_override_cap cfg to in
        elim (Bool-cases (global_over cfg ledger (pos a) st)) [
          | inl full ↦ rw full s
          | inr room ↦ elim (Bool-cases (recip_over recip_cap ledger to (pos a) st)) [
            | inl recip_full ↦ rw (room, recip_full) s
            | inr recip_room ↦
                rw (room, recip_room)
                  (stage_recipient-IsStaged recip_cap to (pos a) (stage_global cfg now (pos a) st)
                    (stage_global-IsStaged st a s (ground arith) room))
          ]
        ]

    evaluate_transfer-IsStaged :
        (asset to : Address) (amount : ℤ) (st : Staged)
        → IsStaged st
        → IsStaged (evaluate_transfer cfg ledger now asset to amount st).1
    unfolding evaluate_transfer
    evaluate_transfer-IsStaged asset to amount st s =
        ground (arith, evaluate_window-IsStaged to amount st s)

    evaluate_protocol-IsStaged :
        (c : Address) (fname : Symbol) (st : Staged)
        → IsStaged st
        → IsStaged (evaluate_protocol cfg ledger c fname st).1
    unfolding evaluate_protocol
    evaluate_protocol-IsStaged c fname st s = ground arith

    -- Judging one call keeps what is staged under the cap.
    pub evaluate-IsStaged :
        (call : ParsedCall) (st : Staged)
        → IsStaged st
        → IsStaged (evaluate cfg ledger now call st).1
    unfolding evaluate
    evaluate-IsStaged (asset_transfer asset to amount) st s =
        evaluate_transfer-IsStaged asset to amount st s
    evaluate-IsStaged (protocol c fname) st s = evaluate_protocol-IsStaged c fname st s
    evaluate-IsStaged (asset_other asset fname) st s = s
    evaluate-IsStaged (self_call fname) st s = s
    evaluate-IsStaged create_contract st s = s
    evaluate-IsStaged (unknown c fname) st s = s

module _ (h : Host) (self_addr : Address) (cfg : PolicyConfig) (ledger : Ledger)
    (now total : ℕ) where
  open h use {Val}

  judge-IsStaged :
      ledger.total ≡ pos total
      → (contexts : List (Context Val)) (st : Staged) (passed : Bool)
      → IsStaged cfg ledger now total st
      → IsStaged cfg ledger now total (judge h self_addr cfg ledger now contexts st passed).staged
  unfolding judge
  judge-IsStaged e [] st passed s = s
  judge-IsStaged e (ctx ∷ ctxs) st passed s =
      let call = parse_call h self_addr ctx cfg in
      let (decision, st') = evaluate cfg ledger now call st in
      judge-IsStaged e ctxs st' (passed && is_allowed decision)
        (evaluate-IsStaged cfg ledger now total e call st s)

  -- What a request stages against a window with this total stays under the cap.
  pub judged-IsStaged :
      ledger.total ≡ pos total
      → (contexts : List (Context Val))
      → IsStaged cfg ledger now total
          (judge h self_addr cfg ledger now contexts nothing_staged true).staged
  judged-IsStaged e contexts =
      judge-IsStaged e contexts nothing_staged true
        (record { pending_exact = refl; fresh = tt; fits = inl refl })
