-- ===== src/Tests.antt =====
-- Runs of the modelled code on small inputs, and the theorems at inputs that meet their conditions.
mod BootTest
mod ClockTest
mod FramesTest
mod PagingTest
mod DevicesTest
mod FirmwareTest
mod HeapTest
mod HeapPagesTest
mod StringsTest
mod StartTest
mod PciTest
mod LoaderTest
