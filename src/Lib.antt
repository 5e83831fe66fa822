-- ===== src/Lib.antt =====
-- The Embedded Firmware Simulator: a simulated microcontroller with its bus, peripherals, clock,
-- event queue and a small task scheduler.
--
-- The program's parts and the files that model them. Prelude holds the shared helpers: Boolean
-- tests and lists over the native numbers, calls that may throw (Prelude/Results), bits and fields
-- of a word (Prelude/Bits, Prelude/Fields), vectors without duplicates (Prelude/Members) and a
-- sort (Prelude/Sorting). Every other file names the header and the source it is about in its
-- first lines.
--   Mmio: the registers and the bus (src/mmio/register.cpp, src/mmio/mmio_bus.cpp). A shared
--     pointer to a register is a reference into a state, through the interface `RegisterStore`; a
--     peripheral keeps its registers in its own record and fills that interface, so that an access
--     through the bus and one through the driver meet in the same register.
--   Memory (src/memory/memory.cpp), Registers (src/cpu/registers/register_file.cpp), Clock
--     (src/system/clock/simulation_clock.cpp), Power (src/system/power/power_controller.cpp).
--   Interrupts (src/kernel/interrupt_controller.cpp): 32 lines; `dispatch` gives the handler to
--     call.
--   Events (src/system/scheduler/event_scheduler.cpp): callbacks act on a world that holds the
--     scheduler.
--   Gpio (src/drivers/gpio/gpio.cpp), Uart (src/drivers/uart/uart.cpp).
--   Timer (src/drivers/timer/timer.cpp): with the clock, the event scheduler and the interrupt
--     controller that it may be attached to.
--   Dma (src/drivers/dma/dma_controller.cpp): over the interface `System` to the memory, bus,
--     UART, interrupt controller and event scheduler that it may be attached to.
--   Rtos (src/rtos/task.cpp, src/rtos/rtos_scheduler.cpp): tasks, ready queues, delays.
--     Rtos/Consistency defines what the ready queues should hold, Rtos/Methods and Rtos/Steps treat
--     the methods one by one and as steps, Rtos/Policy is about the choice of a task and Rtos/Delays
--     about the delay queue.
--   Firmware (src/firmware/firmware_manager.cpp): the registry of applications and the active one;
--     an operation gives the calls that it makes of the applications. Firmware/UartEcho,
--     Firmware/Basic and Firmware/TimerBlink are applications (src/firmware/uart_echo_firmware.cpp,
--     src/firmware/basic_firmware.cpp, src/firmware/timer_blink_firmware.cpp), over their HALs.
--   Hal (src/hal/i2c_hal.cpp, src/hal/uart_hal.cpp, src/hal/gpio_hal.cpp, src/hal/timer_hal.cpp):
--     what applications call; a null pointer to a driver is a HAL that is not attached.
--   Spi, I2c (src/drivers/spi/spi_controller.cpp, src/drivers/i2c/i2c_controller.cpp): each over
--     an interface to its devices, `SpiDevice` and `I2cDevice`, which the simulated devices of
--     include/drivers fill.
--   Pwm (src/drivers/pwm/pwm_controller.cpp): with its timer, which is that of Timer.
--   Adc (src/drivers/adc/adc_controller.cpp): over the interface `Double` to what the code does
--     with a double; `IsOrdered` are the laws that the order of samples rests on.
--   SystemBus (src/system/system_bus.cpp): the attached controllers and their wiring, the tick and
--     the reset, over a `Board` that holds the peripherals of the other files.
--   Cpu (src/cpu/cpu.cpp): the machine of a CPU, a bus, an RTOS scheduler and a power controller.
--     What it runs is the record `Programs`. Cpu/Reset is the reset controller
--     (src/system/power/reset_controller.cpp).
--
-- A function of the model has the name of the C++ function in snake case; a constructor is `new`,
-- a destructor `destroy`. A call that throws gives `throws` with the class of the exception. Texts
-- of messages, log lines and the objects' addresses in memory are left out. Numbers are natural
-- numbers; 64-bit sums and products, 32-bit counters and the identifiers wrap as in the source,
-- written out.
--
-- Loops are structural recursion on the list or on the number of lines, priorities or steps; no
-- fuel is used; the loop of the CPU's `run` is recursion on its number of cycles, and that of the
-- echo application on the number of bytes that wait, of which each turn takes one. The ready
-- queues are searched from priority 255 down, which are all that a priority of eight bits can
-- name.
--
-- Not modelled: the HALs of the PWM, ADC and SPI, and the monitor (src/monitor/monitor.cpp), which
-- call what is modelled here; and the logger and the main program, which are input and output.
pub mod Prelude
pub mod Mmio
pub mod Memory
pub mod Registers
pub mod Clock
pub mod Power
pub mod Interrupts
pub mod Events
pub mod Gpio
pub mod Uart
pub mod Rtos
pub mod Timer
pub mod Dma
pub mod Firmware
pub mod Hal
pub mod Pwm
pub mod Spi
pub mod I2c
pub mod Adc
pub mod SystemBus
pub mod Cpu
