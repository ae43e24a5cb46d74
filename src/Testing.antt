-- ===== src/Testing.antt =====
-- The test cases' library: the files of testing/common/.
pub mod Graph
