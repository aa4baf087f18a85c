-- ===== src/Eal.antt =====
-- dpdk_eal: the cores and NUMA nodes of the machine, and the huge pages on the nodes.
pub mod Cpu
pub mod Nodes
pub mod Detect
pub mod Init
pub mod Supply
pub mod Mapping
pub mod Physical
pub mod Sizes
pub mod Discovery
pub mod Hugepages
mod Tests
