-- ===== src/Status.antt =====
-- The status codes of src/include/status.h that the modelled code returns. `status_t` is an
-- unsigned enumeration whose values the drivers combine with `|`, so a status is its number.
use cyancore.Common.{ℕ}

abbrev pub success : ℕ
success = 0x0000

abbrev pub error_func_inval : ℕ
error_func_inval = 0x0002

abbrev pub error_func_inval_arg : ℕ
error_func_inval_arg = 0x0003

abbrev pub error_os_invalid_op : ℕ
error_os_invalid_op = 0x0f03

abbrev pub error_os_sem_get : ℕ
error_os_sem_get = 0x0f04

abbrev pub error_os_mutex_lock : ℕ
error_os_mutex_lock = 0x0f08

abbrev pub error_os_mutex_unlock : ℕ
error_os_mutex_unlock = 0x0f09

abbrev pub error_memory_low : ℕ
error_memory_low = 0x0601

abbrev pub error_driver : ℕ
error_driver = 0x0100

abbrev pub error_driver_init_done : ℕ
error_driver_init_done = 0x0101

abbrev pub error_list_node_exists : ℕ
error_list_node_exists = 0x1101

abbrev pub error_list_node_not_found : ℕ
error_list_node_not_found = 0x1102

abbrev pub error_driver_init_failed : ℕ
error_driver_init_failed = 0x0102

abbrev pub error_device_inval : ℕ
error_device_inval = 0x0202

abbrev pub error_generic : ℕ
error_generic = 0x0001

abbrev pub error_vcall_code_inval : ℕ
error_vcall_code_inval = 0x0301

abbrev pub error_system_irq_link_fail : ℕ
error_system_irq_link_fail = 0x0b01

abbrev pub error_system_irq_unlink_fail : ℕ
error_system_irq_unlink_fail = 0x0b02

abbrev pub error_driver_busy : ℕ
error_driver_busy = 0x0103

abbrev pub error_inval_pointer : ℕ
error_inval_pointer = 0x0005

abbrev pub error_driver_data : ℕ
error_driver_data = 0x0104

abbrev pub error_file_io : ℕ
error_file_io = 0x0706

abbrev pub error_system_clk_caliberation : ℕ
error_system_clk_caliberation = 0x0b03

abbrev pub error_system : ℕ
error_system = 0x0b00
