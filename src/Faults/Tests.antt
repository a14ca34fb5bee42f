-- ===== src/Faults/Tests.antt =====
-- The laws of the fault mask at a mask with two faults.
use inf2004_aai19_embedded_s.Common.{◌≡◌, true, false, ◌==◌, if◌then◌else◌}
use inf2004_aai19_embedded_s.Faults.{Fault, fault_raise, fault_clear, fault_test}
use inf2004_aai19_embedded_s.Faults.Laws.{fault_set_laws}

fault_set_laws_example :
    (fault_test Fault.heading (fault_raise Fault.payload 0x44)
      ≡ (if 2 == 7 then true else fault_test Fault.heading 0x44))
    × (fault_test Fault.heading (fault_clear Fault.payload 0x44)
        ≡ (if 2 == 7 then false else fault_test Fault.heading 0x44))
fault_set_laws_example = fault_set_laws Fault.heading Fault.payload 0x44
