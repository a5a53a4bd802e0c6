-- ===== src/Io/Status.antt =====
-- hulatang/io/Status.hpp
pub data Status : Type 0 where
  null initializing initialized starting running stopping stopped : Status
