-- ===== src/Processing/Frame.antt =====
-- What accts-api/application/reward_processing_service.go reads, and what the calculation of
-- rewards leaves alone.
use paisa.Prelude.{String, ◌==◌, refl, Bool, false, List, [], ◌∷◌, arith}
use paisa.Prelude.Int.{ℤ}
use paisa.Domain.Constants.{member_add_on}
use paisa.Domain.Transactions.{RewardProcessingEvent}
use paisa.Db.State.{Db}
use paisa.Db.Frame.{Keeps, >>=-Keeps, if-Keeps, query_row-Keeps}
use paisa.Programs.Graph.{Graphs}
use paisa.Rewards.Frame.{IsApart, calculate_purchase-Keeps}
use paisa.Processing.Store.{prior_refunded_basis_for_original}
use paisa.Processing.Selection.{
  RuleSetSelection, active_program_and_published_rules, active_program_and_published_rule_set,
  rules_or_blank,
}
use paisa.Processing.Cache.{load_published_rule_graphs, load_published_rule_graphs-Keeps}
use paisa.Processing.Service.{
  Setting, synthetic_refund_purchase, graph_or_empty, run_versions, calculate_rule_set_purchase,
  calculate_missing_original_refund,
}

module _ {B : Type 0} (part : Db → B) where
  pub prior-Keeps :
      (event : RewardProcessingEvent) → Keeps part (prior_refunded_basis_for_original event)
  unfolding prior_refunded_basis_for_original
  prior-Keeps event db = ground arith

  pub rules_or_blank-Keeps : (p m : String) → Keeps part (rules_or_blank p m)
  unfolding rules_or_blank
  rules_or_blank-Keeps p m db = refl

  module _ (s : Setting) where
    pub rule_set-Keeps :
        (p m : String) → Keeps part (active_program_and_published_rule_set s.now p m)
    unfolding active_program_and_published_rule_set active_program_and_published_rules
    rule_set-Keeps p m =
        >>=-Keeps part (active_program_and_published_rules p m) _
          (>>=-Keeps part _ _ (query_row-Keeps part _)
            (λ _. >>=-Keeps part _ _ (query_row-Keeps part _) (λ _ _. refl)))
          (λ base. >>=-Keeps part _ _ (λ _. refl) (λ _ _. refl))

  -- A part that the usage of limits is not in.
  module _ (s : Setting) (apart : IsApart part) where
    pub run_versions-Keeps :
        (event : RewardProcessingEvent) (graphs : Graphs) (commit : Bool) (scope : String)
        (total : ℤ) (ids : List String)
        → Keeps part (run_versions s event graphs commit scope total ids)
    unfolding run_versions
    run_versions-Keeps event graphs commit scope total [] = λ _. refl
    run_versions-Keeps event graphs commit scope total (id ∷ ids) =
        >>=-Keeps part _ _
          (calculate_purchase-Keeps part apart s.rt event (graph_or_empty (graphs id)) s.sort_groups
            s.sort_rules id commit)
          (λ c.
            >>=-Keeps part (run_versions s event graphs commit member_add_on _ ids) _
              (run_versions-Keeps event graphs commit member_add_on _ ids) (λ _ _. refl))

    module _ (cache : Graphs) where
      pub calculate_rule_set-Keeps :
          (event : RewardProcessingEvent) (rule_set : RuleSetSelection) (commit : Bool)
          → Keeps part (calculate_rule_set_purchase s cache event rule_set commit)
      unfolding calculate_rule_set_purchase
      calculate_rule_set-Keeps event rule_set commit =
          >>=-Keeps part (load_published_rule_graphs cache rule_set.rule_version_ids) _
            (load_published_rule_graphs-Keeps part cache rule_set.rule_version_ids)
            (λ graphs. run_versions-Keeps event graphs commit _ _ rule_set.rule_version_ids)

      pub missing-Keeps :
          (event : RewardProcessingEvent) (version : String) (basis : ℤ)
          → Keeps part (calculate_missing_original_refund s cache event version basis)
      unfolding calculate_missing_original_refund
      missing-Keeps event version basis =
          if-Keeps part (version == "") _ _
            (>>=-Keeps part
              (active_program_and_published_rule_set s.now event.partner_id event.member_id) _
              (rule_set-Keeps s event.partner_id event.member_id)
              (λ rule_set.
                >>=-Keeps part
                  (calculate_rule_set_purchase s cache (synthetic_refund_purchase event basis)
                    rule_set false)
                  _
                  (calculate_rule_set-Keeps (synthetic_refund_purchase event basis) rule_set false)
                  (λ _ _. refl)))
            (>>=-Keeps part (load_published_rule_graphs cache (version ∷ [])) _
              (load_published_rule_graphs-Keeps part cache (version ∷ []))
              (λ graphs.
                >>=-Keeps part _ _
                  (calculate_purchase-Keeps part apart s.rt (synthetic_refund_purchase event basis)
                    (graph_or_empty (graphs version)) s.sort_groups s.sort_rules version false)
                  (λ _ _. refl)))
