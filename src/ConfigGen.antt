-- ===== src/ConfigGen.antt =====
-- config_gen/main.go: the tool that writes the configuration files of a cluster.
pub mod Draws
pub mod Distinct
pub mod Files
pub mod Main
pub mod Numbers
pub mod Settings
pub mod Peers
pub mod Hosts
pub mod Written
pub mod Texts
pub mod Made
pub mod Reads
