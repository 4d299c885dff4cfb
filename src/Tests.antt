-- ===== src/Tests.antt =====
-- Concrete runs, and the theorems at concrete inputs.
mod Codecs
mod Gateways
mod CrashRuns
mod MockRuns
mod Sockets
mod ExampleRuns
mod WireRuns
mod DeliveryRuns
mod ContainerRuns
mod GatewayRuns
mod LogicRuns
mod ServingRuns
mod ClientRuns
mod ServerRuns
mod ChannelRuns
mod NamingRuns
mod RouterRuns
mod RegistryRuns
mod StartupRuns
mod SessionRuns
