-- ===== src/Tests/Interrupt.antt =====
-- Instances of the theorem about interrupt_controller.c.
use cyancore.Status.{success}
use cyancore.Driver.Interrupt.{Port}

abbrev a_port : Port
a_port = record {
  get_irq = 3;
  set_priority = λ i v. success;
  get_priority = λ i. 1;
  en_irq = λ i. success;
  dis_irq = λ i. success;
  get_affinity = λ c. 0;
  set_affinity = λ c i. success;
}
