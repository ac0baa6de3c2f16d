-- ===== src/Ring/System/Moves.antt =====
-- Waits, signals, copies and the publication of an index keep the invariant.
use gicame.Prelude.{ℕ, ◌≡◌, List, [], if_split, Bool, true, false}
use gicame.Ring.System.{
  is_waiting_present, is_waiting_free, Policy, spin, sticky, condvar, Producer, loading_tail,
  Consumer, loading_head, System, wait_data_free, wait_data_present, signal_data_present,
  signal_data_free,
}
use gicame.Ring.System.Inv.{ProducerIsOk, ConsumerIsOk, Inv}

module _ {sent : List ℕ} {asked : ℕ} where
  -- Moving a thread and setting the signals keeps what the rest of the state says.
  pub producer_at :
      (q : Producer) (a b : Bool) (s : System)
      → ProducerIsOk q s.ring s.pending
      → Inv sent asked s
      → Inv sent asked (record s { producer = q; data_present = a; data_free = b })
  producer_at q a b s ok inv = record {
    valid = inv.valid;
    stream = inv.stream;
    counted = inv.counted;
    producing = ok;
    consuming = inv.consuming;
  }

  pub consumer_at :
      (c : Consumer) (a b : Bool) (s : System)
      → ConsumerIsOk c s.ring s.remaining s.staged
      → Inv sent asked s
      → Inv sent asked (record s { consumer = c; data_present = a; data_free = b })
  consumer_at c a b s ok inv = record {
    valid = inv.valid;
    stream = inv.stream;
    counted = inv.counted;
    producing = inv.producing;
    consuming = ok;
  }

  pub wait_data_free-Inv :
      (p : Policy) (s : System) → Inv sent asked s → Inv sent asked (wait_data_free p s)
  unfolding wait_data_free
  wait_data_free-Inv spin s inv = producer_at loading_tail s.data_present s.data_free s tt inv
  wait_data_free-Inv _ s inv =
      if_split (Inv sent asked) s.data_free _ s
        (λ e. producer_at loading_tail s.data_present false s tt inv) (λ e. inv)

  pub wait_data_present-Inv :
      (p : Policy) (s : System)
      → s.staged ≡ []
      → Inv sent asked s
      → Inv sent asked (wait_data_present p s)
  unfolding wait_data_present
  wait_data_present-Inv spin s un inv = consumer_at loading_head s.data_present s.data_free s un inv
  wait_data_present-Inv _ s un inv =
      if_split (Inv sent asked) s.data_present _ s
        (λ e. consumer_at loading_head false s.data_free s un inv) (λ e. inv)

  pub signal_data_present-Inv :
      (p : Policy) (s : System) → Inv sent asked s → Inv sent asked (signal_data_present p s)
  unfolding signal_data_present
  signal_data_present-Inv spin s inv = inv
  signal_data_present-Inv sticky s inv = producer_at s.producer true s.data_free s inv.producing inv
  signal_data_present-Inv condvar s inv =
      if_split (Inv sent asked) (is_waiting_present s.consumer) _ s
        (λ e. producer_at s.producer true s.data_free s inv.producing inv) (λ e. inv)

  pub signal_data_free-Inv :
      (p : Policy) (s : System) → Inv sent asked s → Inv sent asked (signal_data_free p s)
  unfolding signal_data_free
  signal_data_free-Inv spin s inv = inv
  signal_data_free-Inv sticky s inv = producer_at s.producer s.data_present true s inv.producing inv
  signal_data_free-Inv condvar s inv =
      if_split (Inv sent asked) (is_waiting_free s.producer) _ s
        (λ e. producer_at s.producer s.data_present true s inv.producing inv) (λ e. inv)
