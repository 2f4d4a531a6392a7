-- ===== src/Config.antt =====
-- config/: the relayer's configuration. `Update` is UpdatePathConfig of config/core.go, with `Keys`
-- about the keys that it writes; `Chains` is the list of chains of config/config.go and
-- config/chain.go, with `Listed` about it.
pub mod Update
pub mod Keys
pub mod Chains
pub mod Listed
