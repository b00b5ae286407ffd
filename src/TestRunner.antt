-- ===== src/TestRunner.antt =====
-- The test runner process: testrunner/.
pub mod Runtime
pub mod Job
pub mod Main
pub mod Results
