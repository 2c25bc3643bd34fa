-- ===== src/Migration/Keeps.antt =====
-- What a scan keeps: whatever the calls to attach, announce and evict keep.
use model_shard.Prelude.{
  ℕ, Bool, true, false, Option, none, some, List, [], ◌∷◌, String, keys, if◌then◌else◌,
}
use model_shard.Migration.Scanner.{
  MigrationPolicy, Collaborators, announce_if, attach_pulled, pull_pick, try_evict,
  select_candidate, maybe_pull_one, victim_of, evict_first, maybe_evict_one, scan_once,
}

module _ {S W : Type 0} (self_id : String) (policy : MigrationPolicy) (c : Collaborators S W)
    (P : S → Type 0) (attach_keeps : (l e : ℕ) (w : W) (s : S) → P s → P (c.attach l e w s).0)
    (announce_keeps : (l e : ℕ) (s : S) → P s → P (c.announce l e s))
    (evict_keeps : (l e : ℕ) (s : S) → P s → P (c.evict l e s).0) where
  announce_if_keeps : (l e : ℕ) (x : S × Bool) → P x.0 → P (announce_if self_id policy c l e x)
  announce_if_keeps l e (s, true) h = announce_keeps l e s h
  announce_if_keeps l e (s, false) h = h

  attach_pulled_keeps :
      (l e : ℕ) (w : Option W) (s : S) → P s → P (attach_pulled self_id policy c l e w s)
  attach_pulled_keeps l e none s h = h
  attach_pulled_keeps l e (some w) s h =
      announce_if_keeps l e (c.attach l e w s) (attach_keeps l e w s h)

  pull_pick_keeps :
      (pick : Option (ℕ × ℕ × String)) (s : S) → P s → P (pull_pick self_id policy c pick s)
  pull_pick_keeps none s h = h
  pull_pick_keeps (some (l, e, source)) s h = attach_pulled_keeps l e (c.pull source l e s) s h

  try_evict_keeps :
      (layer : ℕ) (victim : Option ℕ) (s : S)
      → P s
      → P (try_evict self_id policy c layer victim s).0
  try_evict_keeps layer none s h = h
  try_evict_keeps layer (some victim) s h = evict_keeps layer victim s h

  if_keeps : (done : Bool) (s t : S) → P s → P t → P (if done then s else t)
  if_keeps true s t h k = h
  if_keeps false s t h k = k

  evict_first_keeps :
      (now : ℕ) (layers : List ℕ) (s : S) → P s → P (evict_first self_id policy c now layers s)
  unfolding evict_first
  evict_first_keeps now [] s h = h
  evict_first_keeps now (layer ∷ layers) s h =
      let tried = try_evict self_id policy c layer (victim_of self_id policy c now layer s) s in
      let kept = try_evict_keeps layer (victim_of self_id policy c now layer s) s h in
      if_keeps tried.1 tried.0 _ kept (evict_first_keeps now layers tried.0 kept)

  pub scan_once_keeps :
      (in_flight : Bool) (now : ℕ) (s : S) → P s → P (scan_once self_id policy c in_flight now s)
  unfolding scan_once maybe_pull_one maybe_evict_one
  scan_once_keeps true now s h = h
  scan_once_keeps false now s h =
      let s' = pull_pick self_id policy c (select_candidate self_id policy c s) s in
      let kept = pull_pick_keeps (select_candidate self_id policy c s) s h in
      if_keeps policy.eviction_enabled _ s'
        (evict_first_keeps now (keys (c.live_experts s')) s' kept) kept
