-- ===== src/Lib.antt =====
-- The library stores data as k buffers of bytes and p coded buffers, so that any k of them give the
-- rest back. This development models its portable C code, the code that the assembly kernels must
-- agree with. Bytes are the numbers below 256 and wider words those below 2 ^ w; every wrap-around
-- of the source is written out. An array is a function from offsets (Base/Memory), `set` writes one
-- cell, and a `for` loop is `for_range` (Base/Loops), whose rounds are counted from the bounds of
-- the source's loop, so that every function returns; a `while` loop has fuel, as does the loop over
-- stripes (below says how much, and why it is enough). A loop that a `break` leaves is a recursion
-- on the rounds left. Arrays that a function takes by different pointers do not overlap.
--
-- The parts, and the files that model them:
--   erasure_code/ec_base.c, ec_base.h: the tables gff_base and gflog_base (Gf/Tables), gf_mul and
--     gf_inv (Gf), gf_invert_matrix (Invert), gf_gen_rs_matrix and gf_gen_cauchy1_matrix (Codes),
--     gf_vect_mul_init in both of its builds, ec_init_tables, gf_vect_dot_prod_base,
--     gf_vect_mad_base, ec_encode_data_base, ec_encode_data_update_base and gf_vect_mul_base
--     (Encode). The encoders read the tables that ec_init_tables lays out, which hold gf_mul's
--     products by one coefficient; decoding is encoding with the matrix that gf_invert_matrix
--     leaves.
--   crc/crc_base.c, crc64_base.c: the tables (Crc/Tables) and the table-driven checks (Crc),
--     beside the bitwise ones of crc/crc_ref.h and crc64_ref.h (Crc/Ref): those that shift right in
--     Crc/Right32, those that shift left in Crc/Left32, those of 64 bits in Crc/Word64, the check
--     that copies in Crc/Copy, and all of crc_base.c in Crc/Word32. Lengths are below 2 ^ 31.
--   raid/raid_base.c: xor_gen_base, xor_check_base, pq_gen_base and pq_check_base (Raid), with the
--     words of pq_gen_base of 64 bits, read as bytes in Raid/Words.
--   mem/mem_zero_detect_base.c: mem_zero_detect_base (Mem).
--   xorMatch/slp.c: memory as buffers behind pointers (XorMatch/Memory), schedules as lists of rows and
--     what they mean on values (XorMatch/Machine, XorMatch/Reads), rustslp_to_schedule and max_var
--     (XorMatch/Program), the encoders over one stripe and over all (XorMatch/Slp), which take the
--     kernel xor_gen, or xor_nodeforest for encode_base, as a record of the operation and its laws
--     (XorMatch/Memory) for the calls that raid/xor_gen_avx.asm and raid/xor_nodeforest_avx.asm are
--     written for: two sources or more, whole rounds of 128 bytes, aligned addresses. The loop over
--     stripes has len for fuel, which is enough for stripes of one byte or more where len and a
--     stripe more fit an int (XorMatch/Slp/Loop); the int i wraps around. A schedule is the list of its rows before the one that starts with -1.
--   xorMatch/vandermonde.c: bitmatrix_to_schedule (XorMatch/Schedule), which meets the encoders in
--     XorMatch/Encode; gf_invert_matrix_w and vandermonde_sub_coding_matrix (Vandermonde), with
--     galois_single_multiply and galois_inverse as parameters.
--   xorMatch/xorMatchCode.c: invert_bitmatrix (XorMatch/InvertBits), over the field of two elements,
--     and bitmatrix_to_schedule_PGC_macthing (XorMatch/Matching), which takes any matching; its
--     operations are run on values by apply_split (XorMatch/Matching/Run). The schedules whose
--     operations say whether they copy or add, bitmatrix_to_schedule_DGC and
--     bitmatrix_to_schedule_PGC_mad, are in XorMatch/Operations. The set-up for decoding,
--     eraseds_to_erased and set_up_ids_for_operations, is in XorMatch/Erased and XorMatch/RowIds; a
--     list of drives ends before its -1, and the search for a free place has k + p rounds, which is
--     enough when drive 0 can only come first (XorMatch/RowIds/Search).
--   igzip/proc_heap_base.c: heapify and build_heap (Igzip/Heap), build_huff_tree (Igzip/Heap/Tree). A
--     round of heapify at least doubles the index, so that heap_size + 1 rounds are enough.
--   igzip/huffman.h, huff_codes.c, igzip_inflate.c: the symbols of distances and lengths, and the table
--     by which inflate reads them (Igzip/Symbols), with bsr as its portable loop over 32 bits.
--   igzip/adler32_base.c: adler32_base (Igzip/Adler), with adler_ref of igzip/checksum_test_ref.h. The
--     loop over whole buffers has the length for fuel, of which a round uses up max_adler_buf.
-- Field is the interface between the parts of the erasure code: the operations and laws of a field
-- of bits, which Gf/Laws fills for gf_mul and gf_inv, and over which Invert and Field/Sum are stated.
--
-- Arrays that the code allocates have no end in the model. Where a theorem needs their size it says
-- so: copy_ptr has p * w + 1 pointers in encode_base_deforestation and value / w + 1 in slp_encode.
-- The rows of rustslp_to_schedule (2 * k * w + 3 ints) and the operations of
-- bitmatrix_to_schedule_PGC_macthing (p * w pointers) are taken to be long enough. The lengths of the
-- checks of igzip and crc are numbers without a bound, of which the code's are those below 2 ^ 32 for
-- adler32_base and 2 ^ 31 for crc.
--
-- Not modelled: the printf calls of the encoders, the tables of GF_LARGE_TABLES, the assembly
-- kernels and their dispatch, the compressor and the decompressor of igzip, in xorMatch the
-- encoders whose calls of the kernel are commented out, the searches for good matrices, the smart
-- and split schedules, the decoding bit matrix and the copies of Jerasure, and the tests and
-- programs.
pub mod Base
pub mod Bits
pub mod Field
pub mod Gf
pub mod Igzip
pub mod Invert
pub mod Raid
pub mod Encode
pub mod Codes
pub mod Crc
pub mod XorMatch
pub mod Mem
pub mod Vandermonde
