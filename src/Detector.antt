-- ===== src/Detector.antt =====
-- internal/hotkey/detector.go: the hot key detector over the sketch. Starting and stopping the
-- goroutine that decays the sketch is left out; what it does at a tick is `Sketch.decay`.
use distributed_cache_system.Prelude.{ℕ, Bool, Option, none, some, Str, leb}
use distributed_cache_system.Sketch
use distributed_cache_system.Sketch.{CountMinSketch, new_count_min_sketch}

pub record Detector : Type 0 where
  pub sketch : CountMinSketch
  pub hot_threshold : ℕ
  pub decay_period : ℕ

unfoldable pub new_detector : ℕ → ℕ → Detector
new_detector hot_threshold decay_period = record {
  sketch = new_count_min_sketch 4096 4;
  hot_threshold = hot_threshold;
  decay_period = decay_period;
}

unfoldable pub get_frequency : Str → Detector → Option ℕ
get_frequency key d = Sketch.estimate key d.sketch

unfoldable pub is_hot : Str → Detector → Option Bool
is_hot key d = elim (Sketch.estimate key d.sketch) [
  | none ↦ none
  | some n ↦ some (leb d.hot_threshold n)
]

unfoldable pub record_access : Str → Detector → Option (Detector × Bool)
record_access key d = elim (Sketch.increment key d.sketch) [
  | none ↦ none
  | some s ↦ elim (Sketch.estimate key s) [
    | none ↦ none
    | some n ↦ some (record d { sketch = s }, leb d.hot_threshold n)
  ]
]

-- `decayLoop` at a tick of its timer.
unfoldable pub decay_tick : Detector → Detector
decay_tick d = record d { sketch = Sketch.decay d.sketch }
