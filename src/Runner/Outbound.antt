-- ===== src/Runner/Outbound.antt =====
-- How often an announcement is sent.
use model_shard.Prelude.{
  ℕ, zero, suc, ◌≡◌, refl, ◌∙◌, Bool, true, [], ◌∷◌, map, filter, all, sym, ltb, arith, ap,
}
use model_shard.Runner.Ownership.{OutboundOwnership, Outbox, surviving, drain_outbound_ownership}

-- The outbox after `n` rounds.
abbrev pub after_rounds : ℕ → Outbox → Outbox
after_rounds zero outbox = outbox
after_rounds (suc n) outbox = after_rounds n (drain_outbound_ownership outbox).1

abbrev pub is_due : ℕ → OutboundOwnership → Bool
is_due n o = ltb n o.ttl

due-surviving :
    (n : ℕ) (outbox : Outbox)
    → map (λ o. o.delta) (filter (is_due n) (surviving outbox))
      ≡ map (λ o. o.delta) (filter (is_due (suc n)) outbox)
unfolding surviving
due-surviving n [] = refl
due-surviving n (o ∷ os) = ground (arith, due-surviving n os)

surviving-all_due : (outbox : Outbox) → all (is_due 0) (surviving outbox) ≡ true
unfolding surviving
surviving-all_due [] = refl
surviving-all_due (o ∷ os) = ground (arith, surviving-all_due os)

filter-all_due :
    (outbox : Outbox) → all (is_due 0) outbox ≡ true → filter (is_due 0) outbox ≡ outbox
filter-all_due [] h = refl
filter-all_due (o ∷ os) h = ground (arith, filter-all_due os)

-- An announcement goes out for as many rounds as its ttl says, and then no more: when every ttl in the
-- outbox is at least one, round number n, counted from zero, sends exactly the announcements whose ttl
-- is above n, in their order.
pub drain_outbound_ownership-ttl :
    (n : ℕ) (outbox : Outbox)
    → all (is_due 0) outbox ≡ true
    → (drain_outbound_ownership (after_rounds n outbox)).0
      ≡ map (λ o. o.delta) (filter (is_due n) outbox)
unfolding drain_outbound_ownership
drain_outbound_ownership-ttl zero outbox h = ap (map (λ o. o.delta)) (sym (filter-all_due outbox h))
drain_outbound_ownership-ttl (suc n) outbox h =
    drain_outbound_ownership-ttl n (surviving outbox) (surviving-all_due outbox)
    ∙ due-surviving n outbox
