-- ===== src/DeviceTree.antt =====
-- app/src/subsys/device_tree: what the firmware takes from the board's device tree.
pub mod Fs
pub mod Devices
