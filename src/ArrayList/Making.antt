-- ===== src/ArrayList/Making.antt =====
-- Making lists: `aws_array_list_init_dynamic` and `aws_array_list_init_static`.
use aws_c_common.Prelude.Bytes.{Bytes}
use aws_c_common.ArrayList.{ArrayList}
use aws_c_common.ArrayList.Holds.{Holds}
