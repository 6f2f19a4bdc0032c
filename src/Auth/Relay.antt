-- ===== src/Auth/Relay.antt =====
-- The targets of auth's outbox, apps/auth/src/outbox/auth-outbox-relay.service.ts, and what the relay
-- makes of the events of any requests.
use harvestledger.Base.{
  ℕ, suc, ◌-◌, ◌*◌, ◌<◌, String, Bool, true, false, none, List, [], ◌∷◌, ◌++◌, All, All-map,
  All-append, length, ◌≡◌, ◌≢◌, refl, sym, ap, ◌∙◌, arith,
}
use mathlib.Core.Path.{subst}
use harvestledger.Base.Assoc.{lookup}
use harvestledger.Outbox.{Row, Payload, enqueue}
use harvestledger.Outbox.Relay.{Targets, routes, clients_for, batch_size}
use harvestledger.Outbox.Relay.Rows.{Fresh, Distinct, pending}
use harvestledger.Outbox.Relay.Progress.{ticks, pending-ticks}
use harvestledger.Auth.{Value}
use harvestledger.Auth.World.{World, Env}
use harvestledger.Auth.Controller.{Request}
use harvestledger.Auth.Controller.Steps.{IsKept, IsAuthPattern, created, updated, reset_requested}
use harvestledger.Auth.Controller.SingleUse.{served, served-Kept}

pub data Client : Type 0 where
  farms_service notifications_service : Client

unfoldable pub auth_targets : Targets Client
auth_targets = routes (
    ("user.created", farms_service ∷ notifications_service ∷ [])
    ∷ ("user.updated", farms_service ∷ [])
    ∷ ("user.password_reset_requested", notifications_service ∷ [])
    ∷ [])

-- A row that no relay has taken yet, of a pattern that has a target, and of an id below `bound`.
abbrev IsNew : ℕ → Row Value → Type 0
IsNew bound r = (clients_for auth_targets r.pattern ≢ []) × (r.published_at ≡ none) × (r.id < bound)

auth_pattern-IsRoutable :
    (pattern : String) → IsAuthPattern pattern → clients_for auth_targets pattern ≢ []
unfolding auth_targets clients_for lookup
auth_pattern-IsRoutable _ created = λ e. absurd (cc e)
auth_pattern-IsRoutable _ updated = λ e. absurd (cc e)
auth_pattern-IsRoutable _ reset_requested = λ e. absurd (cc e)

Distinct-append :
    (rows : List (Row Value)) (r : Row Value)
    → Distinct rows
    → Fresh r.id rows
    → Distinct (rows ++ r ∷ [])
Distinct-append [] r d f = (tt, tt)
Distinct-append (x ∷ rows) r d f = (
  All-append (λ y. y.id ≢ x.id) rows (r ∷ []) d.0 ((λ e. f.0 (sym e)), tt),
  Distinct-append rows r d.1 f.1,
)

-- Ids are distinct and below the sequence, and every row is new.
abbrev Pending : {U O : Type 0} → World U O → Type 0
Pending w = Distinct w.outbox × All (IsNew w.outbox_seq) w.outbox

length-pending :
    (bound : ℕ) (rows : List (Row Value)) → All (IsNew bound) rows → pending rows ≡ length rows
unfolding pending
length-pending bound [] h = refl
length-pending bound (r ∷ rows) h = ground (arith, length-pending bound rows h.1, h.0.1)

module _ {U O File Data : Type 0} (env : Env U O File Data) where
  Pending-IsKept : IsKept env Pending
  unfolding enqueue
  Pending-IsKept = record {
    drawn = λ w q. q;
    changed = λ w s q. q;
    stored = λ w o q. q;
    enqueued = λ w pattern payload own q.
        let higher : All (IsNew (suc w.outbox_seq)) w.outbox =
          All-map w.outbox (λ r h. (h.0, h.1, omega (arith, h.2))) q.1 in
        (
          Distinct-append w.outbox _ q.0 (All-map w.outbox (λ r h. omega (arith, h.2)) q.1),
          All-append (IsNew (suc w.outbox_seq)) w.outbox _ higher
              ((auth_pattern-IsRoutable pattern own, refl, omega arith), tt),
        );
    removed = λ w key q. q;
    issued = λ w now user q. q;
  }

module _ {U O File Data Broker : Type 0} (env : Env U O File Data)
    (emit : Client → String → Payload Value → Broker → Bool × Broker)
    (reachable : (c : Client) (pattern : String) (payload : Payload Value) (b : Broker)
      → (emit c pattern payload b).0 ≡ true) where
  -- After any requests to auth, from an empty outbox, the relay of auth publishes 20 of the events that
  -- they enqueued at every tick, or all that are left, while the clients are reachable and no other
  -- replica holds rows: no event of auth lacks a target.
  pub pending-served :
      (rs : List (ℕ × Request File)) (w : World U O) (times : List ℕ) (b : Broker)
      → w.outbox ≡ []
      → let rows = (served env rs w).outbox in
        pending
          (ticks emit auth_targets reachable times
            (record { draining = false; rows = rows; broker = b })).rows
        ≡ length rows - batch_size * length times
  pending-served rs w times b empty =
      let (distinct, new) =
        served-Kept env Pending (Pending-IsKept env) rs w
          (subst (λ rows. Distinct rows × All (IsNew w.outbox_seq) rows) (sym empty) (tt, tt)) in
      let rows = (served env rs w).outbox in
      pending-ticks emit auth_targets reachable times
        (record { draining = false; rows = rows; broker = b }) refl distinct
        (All-map rows (λ r h. h.0) new)
      ∙ ap (λ n. n - batch_size * length times)
          (length-pending (served env rs w).outbox_seq rows new)
