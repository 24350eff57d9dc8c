-- ===== src/Hack.antt =====
-- hack: the scripts that go with the operator.
pub mod Results
