-- ===== src/Input/System.antt =====
-- The threads of src/input.c together: rounds of the device threads, and devices that appear, in
-- any order.
use spicy_kvm.Prelude.{ℕ, ◌≡◌, Bool, false, Option, none, some, List, [], ◌==◌, if◌then◌else◌}
use spicy_kvm.Input.Keys.{Key}
use spicy_kvm.Input.State.{Read, Input, Env, timeval_zero}
use spicy_kvm.Input.Report.{Thread, thread_start}
use spicy_kvm.Input.Device.{Round, device_round}
use spicy_kvm.Input.Probe.{Probe, Added, Action, input_udev_handler}

-- The state, and the loop variables of the thread of each slot.
pub record System : Type 0 where
  pub input : Input
  pub threads : ℕ → Option Thread

abbrev pub input_start : (Key → Bool) → Input
input_start grab_key = record {
  libevdev = λ i. false;
  grab_key = grab_key;
  grabbed_keyboard = none;
  grabbed_mouse = none;
  grab_key_at = timeval_zero;
  temp_ungrabbed_mouse = false;
  calls = [];
}

abbrev pub system_start : (Key → Bool) → System
system_start grab_key = record { input = input_start grab_key; threads = λ i. none }

abbrev pub set_thread : (ℕ → Option Thread) → ℕ → Option Thread → ℕ → Option Thread
set_thread threads i t j = if j == i then t else threads j

unfoldable pub after_round : System → ℕ → Round → System
after_round s i r = record {
  input = r.input;
  threads = set_thread s.threads i (if r.running then some r.thread else none);
}

unfoldable pub after_added : System → Added → System
after_added s a = record {
  input = a.input;
  threads = elim a.started [
    | none ↦ s.threads
    | some i ↦ set_thread s.threads i (some thread_start)
  ];
}

pub data Step (s : System) : System → Type 0 where
  round :
      (env : Env) (i : ℕ) (r : Read) (t : Thread)
      → s.threads i ≡ some t
      → Step s (after_round s i (device_round env i r s.input t))
  plug :
      (a : Action) (p : Probe) (codes : List Key)
      → Step s (after_added s (input_udev_handler a p codes s.input))

pub data Reach (grab_key : Key → Bool) : System → Type 0 where
  start : Reach grab_key (system_start grab_key)
  next : {s s' : System} → Reach grab_key s → Step s s' → Reach grab_key s'
