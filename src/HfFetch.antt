-- ===== src/HfFetch.antt =====
-- src/serving/hf_fetch.h: a model named on the command line is found in the cache or downloaded by a
-- shell command.
pub mod Names
pub mod Resolve
mod Tests
