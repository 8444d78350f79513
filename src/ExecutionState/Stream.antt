-- ===== src/ExecutionState/Stream.antt =====
-- `stream_events` does not depend on how the reads cut the file.
use loony_dev.Prelude.{false, List, ◌==◌, Text, ◌≡◌, All}

abbrev IsOpen : Text → Type 0
IsOpen = All (λ c. (c == 10) ≡ false)
