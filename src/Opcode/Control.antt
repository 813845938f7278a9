-- ===== src/Opcode/Control.antt =====
-- src/common/opcode.h: control, variable, table and reference instructions.
use silverfir.Prelude.{ℕ}

abbrev pub op_unreachable : ℕ
op_unreachable = 0x00

abbrev pub op_nop : ℕ
op_nop = 0x01

abbrev pub op_block : ℕ
op_block = 0x02

abbrev pub op_loop : ℕ
op_loop = 0x03

abbrev pub op_if : ℕ
op_if = 0x04

abbrev pub op_else : ℕ
op_else = 0x05

abbrev pub op_end : ℕ
op_end = 0x0b

abbrev pub op_br : ℕ
op_br = 0x0c

abbrev pub op_br_if : ℕ
op_br_if = 0x0d

abbrev pub op_br_table : ℕ
op_br_table = 0x0e

abbrev pub op_return : ℕ
op_return = 0x0f

abbrev pub op_call : ℕ
op_call = 0x10

abbrev pub op_call_indirect : ℕ
op_call_indirect = 0x11

abbrev pub op_drop : ℕ
op_drop = 0x1a

abbrev pub op_select : ℕ
op_select = 0x1b

abbrev pub op_select_t : ℕ
op_select_t = 0x1c

abbrev pub op_local_get : ℕ
op_local_get = 0x20

abbrev pub op_local_set : ℕ
op_local_set = 0x21

abbrev pub op_local_tee : ℕ
op_local_tee = 0x22

abbrev pub op_global_get : ℕ
op_global_get = 0x23

abbrev pub op_global_set : ℕ
op_global_set = 0x24

abbrev pub op_table_get : ℕ
op_table_get = 0x25

abbrev pub op_table_set : ℕ
op_table_set = 0x26

abbrev pub op_ref_null : ℕ
op_ref_null = 0xd0

abbrev pub op_ref_is_null : ℕ
op_ref_is_null = 0xd1

abbrev pub op_ref_func : ℕ
op_ref_func = 0xd2

abbrev pub op_prefix_fc : ℕ
op_prefix_fc = 0xfc

abbrev pub op_prefix_fd : ℕ
op_prefix_fd = 0xfd
