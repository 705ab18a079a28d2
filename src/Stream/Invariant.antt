-- ===== src/Stream/Invariant.antt =====
-- In whatever order the threads take turns, what the processor has received is accounted for.
use aiguard_siem.Common.{List}
use aiguard_siem.Events.{Platform, Event}
use aiguard_siem.Stream.Processor.{StreamProcessor}
use aiguard_siem.Stream.Detector.{Turn}
use aiguard_siem.Stream.Runs.{IsAccounted}

module _ (pf : Platform) where
  open pf use {Double, Regex}

  module _ (c₀ : StreamProcessor pf) where
    abbrev Accounted : List (Event Double) → List (Turn pf) → StreamProcessor pf → Type 0
    Accounted es h c = IsAccounted pf c₀ es h c
