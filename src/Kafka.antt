-- ===== src/Kafka.antt =====
-- Package kafkakit: publish and subscribe over Kafka, with tenant filtering and dead letters.
pub mod Tenant
pub mod Pattern
pub mod Subscriber
pub mod Publisher
pub mod Tests
