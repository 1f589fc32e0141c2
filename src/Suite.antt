-- ===== src/Suite.antt =====
-- block-ts/blk-proxy: the tests that set the suite up and take it down, which call all other parts.
pub mod Prologue
pub mod Epilogue
pub mod Runs
mod Tests
pub mod Model
use cns_virtblk_ts.Base.{ℕ, Bool, Option}
use cns_virtblk_ts.Base.Text.{Bytes, codes}
use cns_virtblk_ts.Base.Exec.{Exec}
use cns_virtblk_ts.Te.{TeLib}
use cns_virtblk_ts.Plugin.{PsLib}
use cns_virtblk_ts.Backend.{CfgLib}
use cns_virtblk_ts.Backend.Inventory.{ServerLib}
use cns_virtblk_ts.BlkProxy.{ProxyLib}
use cns_virtblk_ts.BlkProxy.Process.{LaunchLib}
use cns_virtblk_ts.Ceph.Jobs.{JobLib}
use cns_virtblk_ts.Ceph.Daemons.{DaemonLib}
use cns_virtblk_ts.Virtio.{PciLib}

-- What only the tests call.
pub record SuiteLib (W : Type 0) : Type 0 where
  -- tapi_network_setup(FALSE), and TEST_START_ENV
  pub tapi_network_setup : Exec W Unit
  pub test_start_env : Exec W Unit
  -- tapi_cfg_module_add(ta, name, TRUE) and tapi_cfg_module_unload()
  pub tapi_cfg_module_add : Bytes → Bytes → Exec W Unit
  pub tapi_cfg_module_unload : Bytes → Bytes → Exec W Unit
  -- tapi_cfg_pci_bind_driver_by_vend_dev_inst(ta, vendor, device, instance, driver)
  pub bind_driver_by_vend_dev_inst : Bytes → Bytes → Bytes → ℕ → Bytes → Exec W Unit
  pub unbind_driver_by_vend_dev_inst : Bytes → Bytes → Bytes → ℕ → Exec W Unit
  pub cfg_set_instance_fmt : Bytes → Bytes → Exec W Unit
  pub cfg_tree_print : Exec W Unit
  -- what a variable holds that tapi_cfg_ps_get_status() has not set
  pub uninitialised_status : W → Bool

-- All of the libraries.
pub record Libs (W : Type 0) : Type 0 where
  pub te : TeLib W
  pub cfg : CfgLib W
  pub server : ServerLib W
  pub ps : PsLib W
  pub launch : LaunchLib W
  pub proxy : ProxyLib W
  pub pci : PciLib W
  pub jobs : JobLib W
  pub daemon : DaemonLib W
  pub suite : SuiteLib W

-- What TEST_GET_NET, TEST_GET_ADDR_NO_PORT and TEST_GET_IF give, the addresses as te_sockaddr_get_ipstr()
-- prints them.
pub record Net : Type 0 where
  pub ip4addr : Bytes
  pub ip4pfx : ℕ
  pub srv_addr : Bytes
  pub clt_addr : Bytes
  pub clt_if : Bytes

abbrev pub arm_ta : Bytes
arm_ta = codes "Agt_ARM"

abbrev pub disk_ta : Bytes
disk_ta = codes "Agt_disk"

abbrev pub host_ta : Bytes
host_ta = codes "Agt_host"

abbrev pub uart_ta : Bytes
uart_ta = codes "Agt_UART"
