-- ===== src/Common/IoError.antt =====
-- src/common/ss_io_error.h: the results of the buffered input and output.
use simple_socks.Common.{Bool, true, false}

pub data IoError : Type 0 where
  ok again error overflow empty : IoError

-- rc != SS_IO_OK
abbrev pub is_ok : IoError → Bool
is_ok ok = true
is_ok _ = false

-- rc < 0
abbrev pub is_failure : IoError → Bool
is_failure ok = false
is_failure again = false
is_failure _ = true
