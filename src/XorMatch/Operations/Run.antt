-- ===== src/XorMatch/Operations/Run.antt =====
-- What operations with a copy tag (xorMatch/xorMatchCode.c) mean on values.
use cerasure.Base.{◌≡◌, refl, List, [], ◌∷◌, ◌++◌, ◌==◌, if◌then◌else◌}
use cerasure.Bits.{◌⊕◌}
use cerasure.XorMatch.Machine.{Values}
use cerasure.XorMatch.Matching.Run.{put}
use cerasure.XorMatch.Operations.{Operation}

-- A data packet is copied to a parity packet, or added to it.
unfoldable pub apply_operation : Operation → Values → Values → Values
apply_operation o d v =
    let x = d o.data_block o.data_packet in
    put v o.parity_block o.parity_packet
      (if o.xor_copy_tag == 0 then x else v o.parity_block o.parity_packet ⊕ x)

unfoldable pub apply_operations : List Operation → Values → Values → Values
apply_operations [] d v = v
apply_operations (o ∷ rest) d v = apply_operations rest d (apply_operation o d v)

pub apply_operations-append :
    (before : List Operation) (o : Operation) (d v : Values)
    → apply_operations (before ++ o ∷ []) d v ≡ apply_operation o d (apply_operations before d v)
unfolding apply_operations
apply_operations-append [] o d v = refl
apply_operations-append (first ∷ before) o d v =
    apply_operations-append before o d (apply_operation first d v)
