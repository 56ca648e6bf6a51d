-- ===== src/Transport/Tests.antt =====
-- Sizes and states of small queues.
use virtio_accel.Prelude.{ℕ, ◌≡◌, ◌↔◌, ◌^◌, ◌<◌, true, none, some, ok, refl}
use virtio_accel.Transport.{new_size, power_below, new_state, QueueState}
use virtio_accel.Transport.Laws.{new_size-eq-some, new_state-eq-ok, Consistent}

refuses_six : new_size 6 ≡ none
unfolding new_size power_below
refuses_six = refl

new_size-eq-some_example :
    (new_size 256 ≡ some 256) ↔ ((let n : ℕ = 256 in n ≡ n) × (k : ℕ) × (k < 16) × (256 ≡ 2 ^ k))
new_size-eq-some_example = new_size-eq-some 256 256

abbrev sized : QueueState
sized = record { max_size = 8; size = some 4; ready = true; epoch = 1 }

new_state-eq-ok_example :
    (new_state 8 (some 4) true 1 ≡ ok sized) ↔ ((sized ≡ sized) × Consistent sized)
new_state-eq-ok_example = new_state-eq-ok 8 (some 4) true 1 sized
