-- ===== src/MqttCtrl.antt =====
-- The MQTT client of tcp/mqtt_ctrl.c.
pub mod Message
pub mod Words
pub mod Commands
pub mod Connection
mod Tests
