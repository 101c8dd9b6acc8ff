-- ===== src/Server.antt =====
-- server/src: the home-automation server.
pub mod Hex
pub mod Frame
pub mod World
pub mod Actuators
pub mod Actions
pub mod Sensors
pub mod Rules
pub mod Console
pub mod SensorsNetwork
pub mod GuiNetwork
pub mod Configuration
pub mod GuiInterface
pub mod System
pub mod Lifecycle
pub mod Cleaning
pub mod Sending
mod Examples
mod StreamExamples
mod GuiExamples
mod CleaningExamples
mod NetworkExamples
mod ConfigurationExamples
mod SystemExamples
